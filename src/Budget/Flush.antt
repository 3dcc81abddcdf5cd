-- ===== src/Budget/Flush.antt =====
-- flushOne of internal/harvester/budget.go, cut where it releases the mutex: the snapshot of the row,
-- the operation on BUDGETS, and the second look at the row. What other goroutines do to the ledger
-- comes between these as steps of its own. One flush runs at a time, and flushTick starts one only
-- for a dirty id. Marshalling a BudgetEntry cannot fail, so that branch is left out.
pub mod Moves
pub mod Published
pub mod Started
pub mod Called
pub mod Ended
pub mod Settled
pub mod Alone
pub mod Tick
pub mod Rows
pub mod Kept
use inferbus.Base.{
  Bool, List, Option, String, [], false, if◌then◌else◌, is_some, le_int, nat_beq, none, not, pos,
  some, true, ℕ, ℤ, ◌&&◌, ◌||◌, ◌∷◌,
}
use inferbus.Base.{string_eq}
use inferbus.Dict.{Dict, delete, insert, lookup}
use inferbus.Projector.Keys.{KeyEntry}
use inferbus.Budget.{BudgetEntry, Ledger, LedgerRow, add_usage, baseline_end, check_month_rollover}
use inferbus.Budget.Keys.{apply_keys_snapshot}

-- How a call on the bucket ends; `unacked` has its effect and is an error all the same. A call that
-- answers `bucket_missing` shows that BUDGETS was lost with all its entries; reensureBudgetsBucket
-- then makes it again, empty, or fails, and the calls to come answer `bucket_missing` as well.
pub data Answer : Type 0 where
  fine key_missing bucket_missing refused unacked : Answer

-- A flush that has released the mutex; `answer` is `none` until the call on the bucket has ended.
pub record Flight : Type 0 where
  pub id : String
  pub version : ℕ
  pub deletes : Bool
  pub entry : BudgetEntry
  pub answer : Option Answer

pub record World : Type 0 where
  pub ledger : Ledger
  pub bucket : Dict String BudgetEntry
  pub flight : Option Flight

abbrev pub entry_of : LedgerRow → BudgetEntry
entry_of row = record {
  used = row.used;
  budget = row.budget;
  exceeded = row.exceeded;
  month = row.month;
}

abbrev pub must_go : LedgerRow → Bool
must_go row = row.to_delete || le_int row.budget (pos 0)

abbrev pub undirty : String → Ledger → Ledger
undirty id l = record l { dirty = delete id l.dirty }

pub flush_row : String → Option LedgerRow → World → World
flush_row id none w = record w { ledger = undirty id w.ledger }
flush_row id (some row) w = if not (must_go row) && not row.baseline_loaded then w else record w {
  flight = some (record {
    id = id;
    version = row.version;
    deletes = must_go row;
    entry = entry_of row;
    answer = none;
  });
}

-- Up to the first unlock.
unfoldable pub flush_begin : String → World → World
unfolding flush_row
flush_begin id w = flush_row id (lookup id w.ledger.entries) w

-- What `Delete` and `Put` do to the bucket.
abbrev pub deleted : String → Answer → Dict String BudgetEntry → Dict String BudgetEntry
deleted id fine bucket = delete id bucket
deleted id key_missing bucket = delete id bucket
deleted id bucket_missing bucket = []
deleted id refused bucket = bucket
deleted id unacked bucket = delete id bucket

abbrev pub put : String → BudgetEntry → Answer → Dict String BudgetEntry → Dict String BudgetEntry
put id entry fine bucket = insert id entry bucket
put id entry key_missing bucket = bucket
put id entry bucket_missing bucket = []
put id entry refused bucket = bucket
put id entry unacked bucket = insert id entry bucket

pub call_bucket : Answer → Flight → World → World
call_bucket a f w = record w {
  bucket = if f.deletes then deleted f.id a w.bucket else put f.id f.entry a w.bucket;
  flight = some (record f { answer = some a });
}

abbrev pub is_deleted : Answer → Bool
is_deleted fine = true
is_deleted key_missing = true
is_deleted bucket_missing = true
is_deleted refused = false
is_deleted unacked = false

abbrev pub is_put : Answer → Bool
is_put fine = true
is_put key_missing = false
is_put bucket_missing = false
is_put refused = false
is_put unacked = false

-- From the second lock on, for the row that is there then.
untrack : Flight → Option LedgerRow → Ledger → Ledger
untrack f none l = l
untrack f (some row) l =
    if not (nat_beq row.version f.version) || not row.to_delete
    then l
    else record l { entries = delete f.id l.entries; dirty = delete f.id l.dirty }

settle : Flight → Option LedgerRow → Ledger → Ledger
settle f none l = l
settle f (some row) l = if nat_beq row.version f.version then undirty f.id l else l

unfoldable pub flush_end : Flight → Answer → Ledger → Ledger
unfolding untrack settle
flush_end f a l =
    let row = lookup f.id l.entries in
    if f.deletes
    then (if is_deleted a then untrack f row l else l)
    else (if is_put a then settle f row l else l)

pub data Step : Type 0 where
  uses : String → ℤ → Step
  baseline : String → String → ℤ → Bool → Step
  rolls_over : String → Step
  keys_snapshot : String → Dict String (Option KeyEntry) → Step
  begins : String → Step
  ends_call : Answer → Step
  finishes : Step

begin_if_idle : String → Option Flight → World → World
begin_if_idle id (some f) w = w
begin_if_idle id none w = if is_some (lookup id w.ledger.dirty) then flush_begin id w else w

call_if_flying : Answer → Option Flight → World → World
unfolding call_bucket
call_if_flying a none w = w
call_if_flying a (some f) w = elim f.answer [ none ↦ call_bucket a f w | some b ↦ w ]

finish_flight : Option Flight → World → World
finish_flight none w = w
finish_flight (some f) w = elim f.answer [
  | none ↦ w
  | some a ↦ record w { ledger = flush_end f a w.ledger; flight = none }
]

unfoldable pub step : World → Step → World
unfolding begin_if_idle call_if_flying finish_flight
step w (uses id tokens) = record w { ledger = add_usage id tokens w.ledger }
step w (baseline id month used force) = record w {
  ledger = baseline_end id month used force w.ledger;
}
step w (rolls_over now) = record w { ledger = check_month_rollover now w.ledger }
step w (keys_snapshot now entries) = record w { ledger = apply_keys_snapshot now entries w.ledger }
step w (begins id) = begin_if_idle id w.flight w
step w (ends_call a) = call_if_flying a w.flight w
step w finishes = finish_flight w.flight w

unfoldable pub steps : World → List Step → World
steps w [] = w
steps w (t ∷ ts) = steps (step w t) ts
