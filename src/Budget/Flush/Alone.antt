-- ===== src/Budget/Flush/Alone.antt =====
-- A flush of internal/harvester/budget.go that nothing interrupts.
use inferbus.Base.{
  List, Option, String, [], ap, arith, false, if◌then◌else◌, is_some, none, not, some, true, ◌&&◌,
  ◌∷◌, ◌≡◌,
}
use inferbus.Base.{string_eq}
use inferbus.Dict.{Dict, lookup, lookup-delete_self, lookup-insert_self}
use inferbus.Budget.{BudgetEntry, Ledger, LedgerRow}
use inferbus.Budget.Slot.{slot_of}
use inferbus.Budget.Flush.{
  Answer, Flight, Step, begin_if_idle, begins, bucket_missing, call_bucket, call_if_flying, deleted,
  ends_call, entry_of, fine, finish_flight, finishes, flush_begin, flush_end, flush_row, is_deleted,
  must_go, put, settle, step, steps, untrack,
}

abbrev pub one_flush : String → Answer → List Step
one_flush id a = begins id ∷ ends_call a ∷ finishes ∷ []

abbrev snapshot : String → LedgerRow → Option Answer → Flight
snapshot id r answer = record {
  id = id;
  version = r.version;
  deletes = must_go r;
  entry = entry_of r;
  answer = answer;
}

module _ (id : String) (r : LedgerRow) (l : Ledger) (bucket : Dict String BudgetEntry) where
  begun_alone :
      lookup id l.entries ≡ some r
      → is_some (lookup id l.dirty) ≡ true
      → (not (must_go r) && not r.baseline_loaded) ≡ false
      → step (record { ledger = l; bucket = bucket; flight = none }) (begins id)
        ≡ record { ledger = l; bucket = bucket; flight = some (snapshot id r none) }
  unfolding step begin_if_idle flush_begin flush_row
  begun_alone row dirty goes = rw (dirty, row) (ground (arith, goes))

  ended_alone :
      (a : Answer)
      → lookup id l.entries ≡ some r
      → is_some (lookup id l.dirty) ≡ true
      → (not (must_go r) && not r.baseline_loaded) ≡ false
      → steps (record { ledger = l; bucket = bucket; flight = none }) (one_flush id a) ≡ record {
        ledger = flush_end (snapshot id r (some a)) a l;
        bucket = if must_go r then deleted id a bucket else put id (entry_of r) a bucket;
        flight = none;
      }
  unfolding steps step call_if_flying finish_flight call_bucket
  ended_alone a row dirty goes =
      ap (λ w. step (step w (ends_call a)) finishes) (begun_alone row dirty goes)

  -- One flush of a dirty live row that has its baseline, whose `Put` succeeds and which nothing
  -- interrupts, leaves the row clean and its values in the bucket.
  pub put_alone :
      lookup id l.entries ≡ some r
      → is_some (lookup id l.dirty) ≡ true
      → must_go r ≡ false
      → r.baseline_loaded ≡ true
      → let w = steps (record { ledger = l; bucket = bucket; flight = none }) (one_flush id fine) in
        (slot_of id w.ledger ≡ record { row = some r; dirty = false })
        × (lookup id w.bucket ≡ some (entry_of r))
        × (w.flight ≡ none)
  unfolding flush_end settle
  put_alone row dirty live loaded = rw (ended_alone fine row dirty (ground (arith, live, loaded))) (
      ground (
        arith,
        live,
        row,
        lookup-delete_self id l.dirty,
        lookup-insert_self id (entry_of r) bucket,
      ))

  -- One flush of a retired dirty row, whose `Delete` succeeds or finds no key, and which nothing
  -- interrupts, leaves neither row nor entry.
  pub delete_alone :
      (a : Answer)
      → is_deleted a ≡ true
      → lookup id l.entries ≡ some r
      → is_some (lookup id l.dirty) ≡ true
      → r.to_delete ≡ true
      → let w = steps (record { ledger = l; bucket = bucket; flight = none }) (one_flush id a) in
        (slot_of id w.ledger ≡ record { row = none; dirty = false })
        × (lookup id w.bucket ≡ none)
        × (w.flight ≡ none)
  unfolding flush_end untrack lookup
  delete_alone a well row dirty gone = rw (ended_alone a row dirty (ground (arith, gone))) (
      ground (
        arith,
        gone,
        row,
        well,
        lookup-delete_self id l.dirty,
        lookup-delete_self id l.entries,
        lookup-delete_self id bucket,
      ))

  -- A flush of a live row that has its baseline, whose `Put` finds no bucket, leaves the ledger as it
  -- was and no entry.
  pub lost_bucket :
      (j : String)
      → lookup id l.entries ≡ some r
      → is_some (lookup id l.dirty) ≡ true
      → must_go r ≡ false
      → r.baseline_loaded ≡ true
      → let w =
          steps
            (record { ledger = l; bucket = bucket; flight = none })
            (one_flush id bucket_missing) in
        (w.ledger ≡ l) × (lookup j w.bucket ≡ none) × (w.flight ≡ none)
  unfolding flush_end lookup
  lost_bucket j row dirty live loaded =
      rw (ended_alone bucket_missing row dirty (ground (arith, live, loaded)))
        (ground (arith, live))
