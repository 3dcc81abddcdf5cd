-- ===== src/Budget/Flush/Rows.antt =====
-- Rows of the ledger of internal/harvester/budget.go with the budget that a snapshot wants for them.
use inferbus.Budget.Flush.Moves.{if_either}
use inferbus.Base.{
  Bool, Bool-cases, Option, String, arith, false, if◌then◌else◌, inl, inr, le_int, none, not, pos,
  refl, some, true, ℤ, ◌==◌, ◌||◌, ◌∙◌, ◌≡◌,
}
use inferbus.Base.{string_eq}
use inferbus.Budget.{LedgerRow, baseline_changes, loaded_row, next_version, rolled_row, used_row}
use inferbus.Budget.Slot.{Slot, marked, slot_loaded, slot_used}
use inferbus.Budget.Keys.{KeyFold}
use inferbus.Budget.Keys.Pointwise.{slot_budgeted, slot_reconciled, slot_retired}

-- The budget that a snapshot wants enforced for an id, if any.
abbrev pub wanted : Option KeyFold → Option ℤ
wanted none = none
wanted (some f) = if le_int f.budget (pos 0) then none else some f.budget

-- The row is live with this budget, or there is none but one that waits for its deletion.
abbrev pub Enforces : Option ℤ → Option LedgerRow → Type 0
Enforces none none = Unit {0}
Enforces none (some row) = row.to_delete ≡ true
Enforces (some b) none = ⊥
Enforces (some b) (some row) = (row.to_delete ≡ false) × (row.budget ≡ b)

slot_retired-Enforces :
    (dirty : Bool) (o : Option LedgerRow)
    → Enforces none (slot_retired (record { row = o; dirty = dirty })).row
slot_retired-Enforces dirty none = tt
slot_retired-Enforces dirty (some row) = ground (arith, Bool-cases row.to_delete)

slot_budgeted-Enforces :
    (month : String) (budget : ℤ) (dirty : Bool) (o : Option LedgerRow)
    → Enforces (some budget) (slot_budgeted month budget (record { row = o; dirty = dirty })).row
slot_budgeted-Enforces month budget dirty none = (refl, refl)
slot_budgeted-Enforces month budget dirty (some row) = (refl, refl)

pub slot_reconciled-Enforces :
    (month : String) (f : Option KeyFold) (s : Slot)
    → Enforces (wanted f) (slot_reconciled month f s).row
slot_reconciled-Enforces month none s = slot_retired-Enforces s.dirty s.row
slot_reconciled-Enforces month (some f) s = elim (Bool-cases (le_int f.budget (pos 0))) [
  | inl spent ↦ rw spent (slot_retired-Enforces s.dirty s.row)
  | inr given ↦ rw given (slot_budgeted-Enforces month f.budget s.dirty s.row)
]

-- A row with the deletion mark and the budget of another one.
row_like-Enforces :
    (b : Option ℤ) (row later : LedgerRow)
    → later.to_delete ≡ row.to_delete
    → later.budget ≡ row.budget
    → Enforces b (some row)
    → Enforces b (some later)
row_like-Enforces none row later e f h = e ∙ h
row_like-Enforces (some b) row later e f h = (e ∙ h.0, f ∙ h.1)

pub slot_used-Enforces :
    (b : Option ℤ) (tokens : ℤ) (dirty : Bool) (o : Option LedgerRow)
    → Enforces b o
    → Enforces b (slot_used tokens (record { row = o; dirty = dirty })).row
slot_used-Enforces b tokens dirty none h = h
slot_used-Enforces b tokens dirty (some row) h =
    let s : Slot = record { row = some row; dirty = dirty } in
    if_either (λ t. Enforces b t.row) row.to_delete s (marked true s (used_row tokens row))
      (λ gone. h) (λ live. row_like-Enforces b row (used_row tokens row) refl refl h)

pub slot_loaded-Enforces :
    (b : Option ℤ) (month : String) (used : ℤ) (force dirty : Bool) (o : Option LedgerRow)
    → Enforces b o
    → Enforces b (slot_loaded month used force (record { row = o; dirty = dirty })).row
slot_loaded-Enforces b month used force dirty none h = h
slot_loaded-Enforces b month used force dirty (some row) h =
    let s : Slot = record { row = some row; dirty = dirty } in
    if_either (λ t. Enforces b t.row) (row.to_delete || not (row.month == month)) s
      (marked (baseline_changes used row || force) s (loaded_row used row)) (λ stale. h)
      (λ live. row_like-Enforces b row (loaded_row used row) refl refl h)

pub rolled-Enforces :
    (b : Option ℤ) (month : String) (o : Option LedgerRow)
    → Enforces b o
    → Enforces b (elim o [ none ↦ none | some row ↦ some (rolled_row month row) ])
rolled-Enforces b month none h = h
rolled-Enforces b month (some row) h =
    let live : LedgerRow = record row {
      month = month;
      baseline_loaded = false;
      version = next_version row.version;
    } in
    if_either (λ r. Enforces b (some r)) row.to_delete row live (λ gone. h)
      (λ there. row_like-Enforces b row live refl refl h)

pub gone-Enforces :
    (b : Option ℤ) (row : LedgerRow)
    → row.to_delete ≡ true
    → Enforces b (some row)
    → Enforces b none
gone-Enforces none row e h = tt
gone-Enforces (some b) row e h = absurd (cc (e, h.0))
