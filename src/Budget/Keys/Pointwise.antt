-- ===== src/Budget/Keys/Pointwise.antt =====
-- What reconcileKeys of internal/harvester/budget.go does at one key id, whatever else the snapshot
-- and the ledger hold.
use inferbus.Base.{
  string_eq, Bool-cases, Option, String, [], arith, false, if◌then◌else◌, inl, inr, is_some, le_int,
  none, pos, refl, some, str_eq_iff, true, ℤ, ◌==◌, ◌∷◌, ◌≡◌,
}
use inferbus.Dict.{Dict, Distinct, lookup}
use inferbus.Budget.{Ledger, LedgerRow, current_month_locked}
use inferbus.Budget.Slot.{Slot, marked, slot_of, slot_of-write}
use inferbus.Budget.Keys.{
  KeyFold, budget_changes, budgeted_row, new_row, reconcile_folded, reconcile_keys, reconcile_one,
  retire, retired_row, set_budget, vanish_all, vanish_one,
}

-- The month that a row created now gets.
abbrev pub month_of : String → Ledger → String
month_of now l = if l.month == "" then now else l.month

abbrev pub slot_retired : Slot → Slot
slot_retired s = elim s.row [
  | none ↦ s
  | some row ↦ if row.to_delete then s else marked true s (retired_row row)
]

abbrev pub slot_budgeted : String → ℤ → Slot → Slot
slot_budgeted month budget s = elim s.row [
  | none ↦ record { row = some (new_row budget month); dirty = s.dirty }
  | some row ↦ marked (budget_changes budget row) s (budgeted_row budget row)
]

abbrev pub slot_folded : String → KeyFold → Slot → Slot
slot_folded month f s =
    if le_int f.budget (pos 0) then slot_retired s else slot_budgeted month f.budget s

-- A snapshot at one id: what it folds to decides.
abbrev pub slot_reconciled : String → Option KeyFold → Slot → Slot
slot_reconciled month none s = slot_retired s
slot_reconciled month (some f) s = slot_folded month f s

retire-slot :
    (id j : String) (o : Option LedgerRow) (l : Ledger)
    → lookup id l.entries ≡ o
    → slot_of j (retire id o l) ≡ (if id == j then slot_retired (slot_of j l) else slot_of j l)
unfolding retire
retire-slot id j none l e = ground (arith, str_eq_iff id j)
retire-slot id j (some row) l e =
    ground (arith, str_eq_iff id j, slot_of-write id j l.month (retired_row row) true l)

set_budget-slot :
    (now id j : String) (budget : ℤ) (o : Option LedgerRow) (l : Ledger)
    → lookup id l.entries ≡ o
    → slot_of j (set_budget now id budget o l)
      ≡ (if id == j then slot_budgeted (month_of now l) budget (slot_of j l) else slot_of j l)
unfolding set_budget current_month_locked
set_budget-slot now id j budget none l e = ground (
  arith,
  str_eq_iff id j,
  slot_of-write id j now (new_row budget now) false l,
  slot_of-write id j l.month (new_row budget l.month) false l,
)
set_budget-slot now id j budget (some row) l e = ground (
  arith,
  str_eq_iff id j,
  slot_of-write id j l.month (budgeted_row budget row) (budget_changes budget row) l,
)

reconcile_one-slot :
    (now id j : String) (f : KeyFold) (l : Ledger)
    → slot_of j (reconcile_one now id f l)
      ≡ (if id == j then slot_folded (month_of now l) f (slot_of j l) else slot_of j l)
unfolding reconcile_one
reconcile_one-slot now id j f l = ground (
  arith,
  retire-slot id j (lookup id l.entries) l refl,
  set_budget-slot now id j f.budget (lookup id l.entries) l refl,
)

retire-month : (id : String) (o : Option LedgerRow) (l : Ledger) → (retire id o l).month ≡ l.month
unfolding retire
retire-month id none l = refl
retire-month id (some row) l = ground arith

set_budget-month :
    (now id : String) (budget : ℤ) (o : Option LedgerRow) (l : Ledger)
    → month_of now (set_budget now id budget o l) ≡ month_of now l
unfolding set_budget current_month_locked
set_budget-month now id budget none l = ground (arith, str_eq_iff l.month "")
set_budget-month now id budget (some row) l = refl

reconcile_one-month :
    (now id : String) (f : KeyFold) (l : Ledger)
    → month_of now (reconcile_one now id f l) ≡ month_of now l
unfolding reconcile_one
reconcile_one-month now id f l = ground (
  arith,
  retire-month id (lookup id l.entries) l,
  set_budget-month now id f.budget (lookup id l.entries) l,
)

-- The first loop, at one id.
abbrev slot_joined : String → Option KeyFold → Slot → Slot
slot_joined month none s = s
slot_joined month (some f) s = slot_folded month f s

reconcile_folded-slot :
    (now j : String) (folded : Dict String KeyFold) (l : Ledger)
    → Distinct folded
    → slot_of j (reconcile_folded now folded l)
      ≡ slot_joined (month_of now l) (lookup j folded) (slot_of j l)
unfolding reconcile_folded lookup
reconcile_folded-slot now j [] l distinct = refl
reconcile_folded-slot now j ((id, f) ∷ folded) l distinct = elim (Bool-cases (id == j)) [
  | inl same ↦ ground (
    arith,
    str_eq_iff id j,
    reconcile_one-slot now id j f l,
    reconcile_one-month now id f l,
    reconcile_folded-slot now j folded (reconcile_one now id f l) distinct.1,
  )
  | inr other ↦ ground (
    arith,
    reconcile_one-slot now id j f l,
    reconcile_one-month now id f l,
    reconcile_folded-slot now j folded (reconcile_one now id f l) distinct.1,
  )
]

-- The second loop retires the rows whose id the snapshot does not name.
abbrev slot_kept : Option KeyFold → Slot → Slot
slot_kept none s = slot_retired s
slot_kept (some f) s = s

slot_retired_twice : (s : Slot) → slot_retired (slot_retired s) ≡ slot_retired s
slot_retired_twice s = ground arith

vanish_one-slot :
    (id j : String) (folded : Dict String KeyFold) (l : Ledger)
    → slot_of j (vanish_one folded id l)
      ≡ (if id == j then slot_kept (lookup j folded) (slot_of j l) else slot_of j l)
unfolding vanish_one
vanish_one-slot id j folded l =
    ground (arith, str_eq_iff id j, retire-slot id j (lookup id l.entries) l refl)

vanish_all-slot :
    (j : String) (folded : Dict String KeyFold) (rows : Dict String LedgerRow) (l : Ledger)
    → slot_of j (vanish_all folded rows l)
      ≡ (if is_some (lookup j rows) then slot_kept (lookup j folded) (slot_of j l) else slot_of j l)
unfolding vanish_all lookup
vanish_all-slot j folded [] l = refl
vanish_all-slot j folded ((id, row) ∷ rows) l = ground (
  arith,
  str_eq_iff id j,
  vanish_one-slot id j folded l,
  slot_retired_twice (slot_of j l),
  vanish_all-slot j folded rows (vanish_one folded id l),
)

-- A snapshot changes what the ledger holds of a key id by what the snapshot folds to at that id and
-- by nothing else: a positive budget makes or updates the row, anything else marks it for deletion.
pub slot_of-reconcile_keys :
    (now j : String) (folded : Dict String KeyFold) (l : Ledger)
    → Distinct folded
    → slot_of j (reconcile_keys now folded l)
      ≡ slot_reconciled (month_of now l) (lookup j folded) (slot_of j l)
unfolding reconcile_keys
slot_of-reconcile_keys now j folded l distinct =
    let l' = reconcile_folded now folded l in
    ground
      (arith, vanish_all-slot j folded l'.entries l', reconcile_folded-slot now j folded l distinct)
