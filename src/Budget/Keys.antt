-- ===== src/Budget/Keys.antt =====
-- KEYS snapshots: applyKeysSnapshot and reconcileKeys of internal/harvester/budget.go.
pub mod Fold
pub mod Pointwise
pub mod Rollover
use inferbus.Base.{
  string_eq, Bool, Option, String, [], eq_int, false, if◌then◌else◌, is_some, le_int, none, not,
  pos, some, true, ℤ, ◌==◌, ◌||◌, ◌∷◌,
}
use inferbus.Dict.{Dict, insert, lookup}
use inferbus.Projector.Keys.{KeyEntry}
use inferbus.Budget.{Ledger, LedgerRow, current_month_locked, is_exceeded, mark, next_version}

pub record KeyFold : Type 0 where
  pub budget : ℤ
  pub diverged : Bool

-- One entry of the snapshot is folded into its key id's accumulator.
abbrev pub joined : KeyEntry → Option KeyFold → KeyFold
joined row none = record { budget = row.monthly_token_budget; diverged = false }
joined row (some f) = if eq_int row.monthly_token_budget f.budget then f else record {
  budget = if le_int row.monthly_token_budget f.budget then f.budget else row.monthly_token_budget;
  diverged = true;
}

-- An entry that does not decode, or has no id, is skipped.
abbrev pub fold_entry : Option KeyEntry → Dict String KeyFold → Dict String KeyFold
fold_entry none folded = folded
fold_entry (some row) folded =
    if row.id == "" then folded else insert row.id (joined row (lookup row.id folded)) folded

-- The loop of `applyKeysSnapshot` over the bucket's entries, keyed by hash.
unfoldable pub fold_keys : Dict String (Option KeyEntry) → Dict String KeyFold → Dict String KeyFold
fold_keys [] folded = folded
fold_keys ((hash, e) ∷ entries) folded = fold_keys entries (fold_entry e folded)

abbrev pub retired_row : LedgerRow → LedgerRow
retired_row row = record row { to_delete = true; version = next_version row.version }

retire : String → Option LedgerRow → Ledger → Ledger
retire id none l = l
retire id (some row) l =
    if row.to_delete
    then l
    else record l { entries = insert id (retired_row row) l.entries; dirty = mark id l.dirty }

abbrev pub new_row : ℤ → String → LedgerRow
new_row budget month = record {
  budget = budget;
  used = pos 0;
  month = month;
  exceeded = false;
  baseline_loaded = false;
  to_delete = false;
  version = 0;
}

-- The row is resurrected, or its budget differs.
abbrev pub budget_changes : ℤ → LedgerRow → Bool
budget_changes budget row = row.to_delete || not (eq_int row.budget budget)

abbrev pub budgeted_row : ℤ → LedgerRow → LedgerRow
budgeted_row budget row = record row {
  budget = budget;
  exceeded = if eq_int row.budget budget then row.exceeded else is_exceeded row.used budget;
  to_delete = false;
  version = if budget_changes budget row then next_version row.version else row.version;
}

set_budget : String → String → ℤ → Option LedgerRow → Ledger → Ledger
set_budget now id budget none l =
    let l' = current_month_locked now l in
    record l' { entries = insert id (new_row budget l'.month) l'.entries }
set_budget now id budget (some row) l = record l {
  entries = insert id (budgeted_row budget row) l.entries;
  dirty = if budget_changes budget row then mark id l.dirty else l.dirty;
}

-- The body of the first loop of `reconcileKeys`.
unfoldable pub reconcile_one : String → String → KeyFold → Ledger → Ledger
unfolding retire set_budget current_month_locked
reconcile_one now id f l =
    if le_int f.budget (pos 0)
    then retire id (lookup id l.entries) l
    else set_budget now id f.budget (lookup id l.entries) l

unfoldable pub reconcile_folded : String → Dict String KeyFold → Ledger → Ledger
reconcile_folded now [] l = l
reconcile_folded now ((id, f) ∷ folded) l = reconcile_folded now folded (reconcile_one now id f l)

-- The body of the second loop, for a key id that the ledger has a row for.
unfoldable pub vanish_one : Dict String KeyFold → String → Ledger → Ledger
unfolding retire
vanish_one folded id l = if is_some (lookup id folded) then l else retire id (lookup id l.entries) l

unfoldable pub vanish_all : Dict String KeyFold → Dict String LedgerRow → Ledger → Ledger
vanish_all folded [] l = l
vanish_all folded ((id, row) ∷ rows) l = vanish_all folded rows (vanish_one folded id l)

-- `reconcileKeys`
unfoldable pub reconcile_keys : String → Dict String KeyFold → Ledger → Ledger
reconcile_keys now folded l =
    let l' = reconcile_folded now folded l in vanish_all folded l'.entries l'

-- `applyKeysSnapshot`
unfoldable pub apply_keys_snapshot : String → Dict String (Option KeyEntry) → Ledger → Ledger
apply_keys_snapshot now entries l = reconcile_keys now (fold_keys entries []) l
