-- ===== src/Budget/Slot.antt =====
-- The ledger seen at one key id, and what each operation of internal/harvester/budget.go on one id
-- does to it.
use inferbus.Base.{
  string_eq, Bool, Option, String, [], arith, false, if◌then◌else◌, is_some, none, not, refl, some,
  str_eq_iff, true, ℤ, ◌==◌, ◌||◌, ◌∷◌, ◌≡◌,
}
use inferbus.Dict.{Dict, insert, lookup, lookup-insert}
use inferbus.Budget.{
  Ledger, LedgerRow, add_usage, add_usage_to, baseline_changes, baseline_end, load_into, loaded_row,
  mark, roll_rows, rolled_row, used_row,
}

-- The row of a key id, and whether the id is dirty.
pub record Slot : Type 0 where
  pub row : Option LedgerRow
  pub dirty : Bool

abbrev pub slot_of : String → Ledger → Slot
slot_of id l = record { row = lookup id l.entries; dirty = is_some (lookup id l.dirty) }

abbrev pub marked : Bool → Slot → LedgerRow → Slot
marked touched s row = record { row = some row; dirty = touched || s.dirty }

-- A write of one row, with or without a dirty mark, is seen at its own id only.
pub slot_of-write :
    (id j month : String) (row : LedgerRow) (touched : Bool) (l : Ledger)
    → slot_of j (record {
      month = month;
      entries = insert id row l.entries;
      dirty = if touched then mark id l.dirty else l.dirty;
    })
      ≡ (if id == j then marked touched (slot_of j l) row else slot_of j l)
slot_of-write id j month row true l =
    ground (arith, lookup-insert id j row l.entries, lookup-insert id j true l.dirty)
slot_of-write id j month row false l = ground (arith, lookup-insert id j row l.entries)

-- AddUsage at one id.
abbrev pub slot_used : ℤ → Slot → Slot
slot_used tokens s = elim s.row [
  | none ↦ s
  | some row ↦ if row.to_delete then s else marked true s (used_row tokens row)
]

abbrev pub slot_loaded : String → ℤ → Bool → Slot → Slot
slot_loaded month used force s = elim s.row [
  | none ↦ s
  | some row ↦
      if row.to_delete || not (row.month == month)
      then s
      else marked (baseline_changes used row || force) s (loaded_row used row)
]

add_usage_to-slot :
    (id j : String) (tokens : ℤ) (o : Option LedgerRow) (l : Ledger)
    → lookup id l.entries ≡ o
    → slot_of j (add_usage_to id tokens o l)
      ≡ (if id == j then slot_used tokens (slot_of j l) else slot_of j l)
unfolding add_usage_to
add_usage_to-slot id j tokens none l e = ground (arith, str_eq_iff id j)
add_usage_to-slot id j tokens (some row) l e =
    ground (arith, str_eq_iff id j, slot_of-write id j l.month (used_row tokens row) true l)

-- `AddUsage` for a key id is seen at that id only.
pub slot_of-add_usage :
    (id j : String) (tokens : ℤ) (l : Ledger)
    → (id == "") ≡ false
    → slot_of j (add_usage id tokens l)
      ≡ (if id == j then slot_used tokens (slot_of j l) else slot_of j l)
unfolding add_usage
slot_of-add_usage id j tokens l given =
    rw given (add_usage_to-slot id j tokens (lookup id l.entries) l refl)

load_into-slot :
    (id j month : String) (used : ℤ) (force : Bool) (o : Option LedgerRow) (l : Ledger)
    → lookup id l.entries ≡ o
    → slot_of j (load_into id month used force o l)
      ≡ (if id == j then slot_loaded month used force (slot_of j l) else slot_of j l)
unfolding load_into
load_into-slot id j month used force none l e = ground (arith, str_eq_iff id j)
load_into-slot id j month used force (some row) l e = ground (
  arith,
  str_eq_iff id j,
  slot_of-write id j l.month (loaded_row used row) (baseline_changes used row || force) l,
)

-- So is an answer of the sink.
pub slot_of-baseline_end :
    (id j month : String) (used : ℤ) (force : Bool) (l : Ledger)
    → slot_of j (baseline_end id month used force l)
      ≡ (if id == j then slot_loaded month used force (slot_of j l) else slot_of j l)
unfolding baseline_end
slot_of-baseline_end id j month used force l =
    load_into-slot id j month used force (lookup id l.entries) l refl

-- A rollover at one id.
abbrev pub slot_rolled : String → Slot → Slot
slot_rolled month s = elim s.row [
  | none ↦ s
  | some row ↦ record { row = some (rolled_row month row); dirty = s.dirty }
]

pub lookup-roll_rows :
    (month j : String) (rows : Dict String LedgerRow)
    → lookup j (roll_rows month rows)
      ≡ (elim (lookup j rows) [ none ↦ none | some row ↦ some (rolled_row month row) ])
unfolding roll_rows lookup
lookup-roll_rows month j [] = refl
lookup-roll_rows month j ((id, row) ∷ rows) = ground (arith, lookup-roll_rows month j rows)
