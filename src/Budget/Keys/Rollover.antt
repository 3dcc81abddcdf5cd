-- ===== src/Budget/Keys/Rollover.antt =====
-- A row that waits for its deletion over a month rollover and gets a budget again: checkMonthRollover
-- and reconcileKeys of internal/harvester/budget.go, one after the other.
use inferbus.Base.{String, arith, false, le_int, pos, refl, some, true, ◌≡◌}
use inferbus.Base.{string_eq}
use inferbus.Dict.{Dict, Distinct, lookup}
use inferbus.Budget.{Ledger, LedgerRow, check_month_rollover}
use inferbus.Budget.Slot.{lookup-roll_rows}
use inferbus.Budget.Keys.{KeyFold, budgeted_row, reconcile_keys}
use inferbus.Budget.Keys.Pointwise.{slot_of-reconcile_keys}

lookup-check_month_rollover :
    (now j : String) (row : LedgerRow) (l : Ledger)
    → lookup j l.entries ≡ some row
    → row.to_delete ≡ true
    → lookup j (check_month_rollover now l).entries ≡ some row
unfolding check_month_rollover
lookup-check_month_rollover now j row l found waiting =
    ground (arith, found, waiting, lookup-roll_rows now j l.entries)

-- A row marked for deletion is left out of a rollover, and a budget that its key gets before the
-- deletion is flushed makes it live again as it was: under the month it had, with the usage it had,
-- and with its baseline counted as loaded if it was.
pub rollover-reconcile_stale :
    (now today id : String) (f : KeyFold) (folded : Dict String KeyFold) (row : LedgerRow)
    (l : Ledger)
    → lookup id l.entries ≡ some row
    → row.to_delete ≡ true
    → Distinct folded
    → lookup id folded ≡ some f
    → le_int f.budget (pos 0) ≡ false
    → (live : LedgerRow) × (lookup id
          (reconcile_keys today folded (check_month_rollover now l)).entries
        ≡ some live)
      × (live.to_delete ≡ false)
      × (live.budget ≡ f.budget)
      × (live.month ≡ row.month)
      × (live.used ≡ row.used)
      × (live.baseline_loaded ≡ row.baseline_loaded)
rollover-reconcile_stale now today id f folded row l found waiting distinct named given = (
  budgeted_row f.budget row,
  ground (
    arith,
    named,
    given,
    lookup-check_month_rollover now id row l found waiting,
    slot_of-reconcile_keys today id folded (check_month_rollover now l) distinct,
  ),
  refl,
  refl,
  refl,
  refl,
  refl,
)
