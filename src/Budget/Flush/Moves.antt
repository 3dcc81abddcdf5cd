-- ===== src/Budget/Flush/Moves.antt =====
-- What AddUsage, a baseline, a rollover and a KEYS snapshot of internal/harvester/budget.go can do to
-- one row of the ledger.
pub mod Ledgers
use inferbus.Base.{
  Bool, Option, String, arith, eq_int_eq, false, if◌then◌else◌, le_int, none, not, pos, refl, some,
  subst, sym, true, ℕ, ℤ, ◌<◌, ◌==◌, ◌^◌, ◌||◌, ◌≡◌,
}
use inferbus.Base.{string_eq}
use inferbus.Budget.{
  LedgerRow, baseline_changes, is_exceeded, loaded_row, next_version, rolled_row, used_row,
}
use inferbus.Budget.Slot.{Slot, marked, slot_loaded, slot_used}
use inferbus.Budget.Keys.{KeyFold, budget_changes, budgeted_row, new_row, retired_row}
use inferbus.Budget.Keys.Pointwise.{slot_budgeted, slot_reconciled, slot_retired}

-- `exceeded` is up to date, and the version is one of 64 bits.
pub record IsExact (r : LedgerRow) : Type 0 where
  pub up_to_date : r.exceeded ≡ is_exceeded r.used r.budget
  pub in_range : r.version < 2 ^ 64

-- The slot stays, is marked dirty, gets its first row, or its row changes with a new version and
-- either becomes dirty or waits for its baseline.
pub data Moves : Slot → Slot → Type 0 where
  stays : (s : Slot) → Moves s s
  is_marked :
      (r : LedgerRow) (d : Bool)
      → Moves (record { row = some r; dirty = d }) (record { row = some r; dirty = true })
  is_made :
      (r : LedgerRow) (d : Bool)
      → IsExact r
      → r.to_delete ≡ false
      → r.baseline_loaded ≡ false
      → Moves (record { row = none; dirty = d }) (record { row = some r; dirty = d })
  is_touched :
      (r t : LedgerRow) (d : Bool)
      → IsExact t
      → t.version ≡ next_version r.version
      → Moves (record { row = some r; dirty = d }) (record { row = some t; dirty = true })
  is_unloaded :
      (r t : LedgerRow) (d : Bool)
      → IsExact t
      → t.version ≡ next_version r.version
      → t.to_delete ≡ false
      → t.baseline_loaded ≡ false
      → Moves (record { row = some r; dirty = d }) (record { row = some t; dirty = d })

abbrev pub RowExact : Option LedgerRow → Type 0
RowExact none = Unit
RowExact (some r) = IsExact r

next_version_lt : (v : ℕ) → next_version v < 2 ^ 64
next_version_lt v = omega arith

pub if_either :
    {A : Type 0} (P : A → Type 0) (b : Bool) (x y : A)
    → (b ≡ true → P x)
    → (b ≡ false → P y)
    → P (if b then x else y)
if_either P true x y f g = f refl
if_either P false x y f g = g refl

-- A row as it is written, with a new version.
touched :
    (r t : LedgerRow) (d : Bool)
    → t.exceeded ≡ is_exceeded t.used t.budget
    → t.version ≡ next_version r.version
    → Moves (record { row = some r; dirty = d }) (record { row = some t; dirty = true })
touched r t d e v =
    is_touched r t d (record { up_to_date = e; in_range = rw v (next_version_lt r.version) }) v

or_false : (b : Bool) → (b || false) ≡ b
or_false true = refl
or_false false = refl

module _ (d : Bool) where
  used-Moves :
      (tokens : ℤ) (o : Option LedgerRow)
      → Moves (record { row = o; dirty = d }) (slot_used tokens (record { row = o; dirty = d }))
  used-Moves tokens none = stays _
  used-Moves tokens (some r) =
      let s : Slot = record { row = some r; dirty = d } in
      if_either (Moves s) r.to_delete s (marked true s (used_row tokens r)) (λ gone. stays s)
        (λ live. touched r (used_row tokens r) d refl refl)

  retired-Moves :
      (o : Option LedgerRow)
      → RowExact o
      → Moves (record { row = o; dirty = d }) (slot_retired (record { row = o; dirty = d }))
  retired-Moves none x = stays _
  retired-Moves (some r) x =
      let s : Slot = record { row = some r; dirty = d } in
      if_either (Moves s) r.to_delete s (marked true s (retired_row r)) (λ gone. stays s)
        (λ live. touched r (retired_row r) d x.up_to_date refl)

  rolled-Moves :
      (month : String) (o : Option LedgerRow)
      → RowExact o
      → Moves
          (record { row = o; dirty = d })
          (record {
            row = elim o [ none ↦ none | some row ↦ some (rolled_row month row) ];
            dirty = d;
          })
  rolled-Moves month none x = stays _
  rolled-Moves month (some r) x =
      let t : LedgerRow = record r {
        month = month;
        baseline_loaded = false;
        version = next_version r.version;
      } in
      if_either
        (λ row. Moves (record { row = some r; dirty = d }) (record { row = some row; dirty = d }))
        r.to_delete r t (λ gone. stays _)
        (λ live.
          is_unloaded r t d
            (record { up_to_date = x.up_to_date; in_range = next_version_lt r.version }) refl live
            refl)

  -- A row that is written anew if `b`, and is as it was otherwise.
  written-Moves :
      (b force : Bool) (r t : LedgerRow)
      → t.exceeded ≡ is_exceeded t.used t.budget
      → (b ≡ true → t.version ≡ next_version r.version)
      → (b ≡ false → t ≡ r)
      → Moves
          (record { row = some r; dirty = d })
          (marked (b || force) (record { row = some r; dirty = d }) t)
  written-Moves true force r t e new same = touched r t d e (new refl)
  written-Moves false true r t e new same =
      subst
        (λ u. Moves (record { row = some r; dirty = d }) (record { row = some u; dirty = true }))
        (sym (same refl)) (is_marked r d)
  written-Moves false false r t e new same =
      subst (λ u. Moves (record { row = some r; dirty = d }) (record { row = some u; dirty = d }))
        (sym (same refl)) (stays _)

  loaded-Moves :
      (month : String) (used : ℤ) (force : Bool) (o : Option LedgerRow)
      → RowExact o
      → Moves
          (record { row = o; dirty = d })
          (slot_loaded month used force (record { row = o; dirty = d }))
  loaded-Moves month used force none x = stays _
  loaded-Moves month used force (some r) x =
      let s : Slot = record { row = some r; dirty = d } in
      if_either (Moves s) (r.to_delete || not (r.month == month)) s
        (marked (baseline_changes used r || force) s (loaded_row used r)) (λ gone. stays s)
        (λ live.
          written-Moves (baseline_changes used r) force r (loaded_row used r) refl
            (λ changes. ground (arith, changes))
            (λ same. ground (arith, same, eq_int_eq r.used used, x.up_to_date)))

  budgeted-Moves :
      (month : String) (budget : ℤ) (o : Option LedgerRow)
      → RowExact o
      → le_int budget (pos 0) ≡ false
      → Moves
          (record { row = o; dirty = d })
          (slot_budgeted month budget (record { row = o; dirty = d }))
  budgeted-Moves month budget none x positive =
      is_made (new_row budget month) d
        (record { up_to_date = ground (arith, positive); in_range = omega arith }) refl refl
  budgeted-Moves month budget (some r) x positive =
      subst
        (λ m.
          Moves (record { row = some r; dirty = d })
            (marked m (record { row = some r; dirty = d }) (budgeted_row budget r)))
        (or_false (budget_changes budget r))
        (written-Moves (budget_changes budget r) false r (budgeted_row budget r)
          (ground (arith, eq_int_eq r.budget budget, x.up_to_date))
          (λ changes. ground (arith, changes))
          (λ same. ground (arith, same, eq_int_eq r.budget budget)))

  reconciled-Moves :
      (month : String) (f : Option KeyFold) (o : Option LedgerRow)
      → RowExact o
      → Moves
          (record { row = o; dirty = d })
          (slot_reconciled month f (record { row = o; dirty = d }))
  reconciled-Moves month none o x = retired-Moves o x
  reconciled-Moves month (some f) o x =
      let s : Slot = record { row = o; dirty = d } in
      if_either (Moves s) (le_int f.budget (pos 0)) (slot_retired s)
        (slot_budgeted month f.budget s) (λ none_left. retired-Moves o x)
        (λ positive. budgeted-Moves month f.budget o x positive)
