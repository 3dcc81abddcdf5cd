-- ===== src/Budget/Flush/Tick/Lost.antt =====
-- The ticks of internal/harvester/budget.go after BUDGETS was lost.
use inferbus.Budget.Flush.Tick.{flush_tick}
use inferbus.Budget.Flush.Tick.Seen.{Seen}
use inferbus.Budget.Flush.{Answer, World}
use inferbus.Base.{Option, String, false, some, suc, zero, ℕ, ℤ}
use inferbus.Base.{string_eq}
use inferbus.Dict.{Dict}
use inferbus.Budget.{BudgetEntry, LedgerRow}

-- Tick after tick.
abbrev pub ticks : (String → Answer) → (String → String → Option ℤ) → ℕ → World → World
ticks answer sink zero w = w
ticks answer sink (suc n) w = ticks answer sink n (flush_tick answer sink w)

-- A row at rest: live, with its baseline, and clean.
abbrev AtRest : LedgerRow → Option BudgetEntry → Seen
AtRest r e = record { row = some r; dirty = false; entry = e }
