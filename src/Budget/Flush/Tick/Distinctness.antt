-- ===== src/Budget/Flush/Tick/Distinctness.antt =====
-- The ticks of internal/harvester/budget.go keep one row for each key id.
use inferbus.Budget.Flush.Tick.{
  asked, call_and_end, dirty_ids, flush_all, flush_one, flush_tick, load_baseline, load_baselines,
}
use inferbus.Budget.Flush.{
  Answer, Flight, World, flush_begin, flush_end, flush_row, settle, untrack,
}
use inferbus.Base.{
  Bool, List, Option, String, [], arith, none, refl, some, subst, sym, true, ℤ, ◌∷◌, ◌≡◌,
}
use inferbus.Base.{string_eq}
use inferbus.Dict.{Distinct, delete-Distinct, insert-Distinct, lookup}
use inferbus.Budget.{
  Ledger, LedgerRow, baseline_begin, baseline_end, load_into, loaded_row, pending_ids,
}

untrack-Distinct :
    (f : Flight) (o : Option LedgerRow) (l : Ledger)
    → Distinct l.entries
    → Distinct (untrack f o l).entries
unfolding untrack
untrack-Distinct f none l d = d
untrack-Distinct f (some row) l d = ground (arith, d, delete-Distinct f.id l.entries d)

settle-entries :
    (f : Flight) (o : Option LedgerRow) (l : Ledger) → (settle f o l).entries ≡ l.entries
unfolding settle
settle-entries f none l = refl
settle-entries f (some row) l = ground arith

flush_end-Distinct :
    (f : Flight) (a : Answer) (l : Ledger) → Distinct l.entries → Distinct (flush_end f a l).entries
unfolding flush_end
flush_end-Distinct f a l d = ground (
  arith,
  d,
  untrack-Distinct f (lookup f.id l.entries) l d,
  settle-entries f (lookup f.id l.entries) l,
)

flush_row-entries :
    (id : String) (o : Option LedgerRow) (w : World)
    → (flush_row id o w).ledger.entries ≡ w.ledger.entries
unfolding flush_row
flush_row-entries id none w = refl
flush_row-entries id (some row) w = ground arith

call_and_end-Distinct :
    (a : Answer) (o : Option Flight) (w : World)
    → Distinct w.ledger.entries
    → Distinct (call_and_end a o w).ledger.entries
unfolding call_and_end
call_and_end-Distinct a none w d = d
call_and_end-Distinct a (some f) w d = flush_end-Distinct f a w.ledger d

flush_all-Distinct :
    (answer : String → Answer) (ids : List String) (w : World)
    → Distinct w.ledger.entries
    → Distinct (flush_all answer ids w).ledger.entries
unfolding flush_all flush_one flush_begin
flush_all-Distinct answer [] w d = d
flush_all-Distinct answer (id ∷ ids) w d =
    let begun = flush_begin id w in
    flush_all-Distinct answer ids (flush_one (answer id) id w) (
      call_and_end-Distinct (answer id) begun.flight begun
        (subst Distinct (sym (flush_row-entries id (lookup id w.ledger.entries) w)) d))

load_into-Distinct :
    (id month : String) (used : ℤ) (force : Bool) (o : Option LedgerRow) (l : Ledger)
    → Distinct l.entries
    → Distinct (load_into id month used force o l).entries
unfolding load_into
load_into-Distinct id month used force none l d = d
load_into-Distinct id month used force (some row) l d =
    ground (arith, d, insert-Distinct id (loaded_row used row) l.entries d)

asked-Distinct :
    (sink : String → String → Option ℤ) (id : String) (force : Bool) (o : Option String)
    (l : Ledger)
    → Distinct l.entries
    → Distinct (asked sink id force o l).entries
unfolding asked baseline_end
asked-Distinct sink id force none l d = d
asked-Distinct sink id force (some month) l d =
    elim (sink id month)
      as (λ u.
        Distinct
          (elim u as (λ x. Ledger) [
            | none ↦ l
            | some used ↦ baseline_end id month used force l
          ]).entries) [
            | none ↦ d
            | some used ↦ load_into-Distinct id month used force (lookup id l.entries) l d
          ]

load_baselines-Distinct :
    (sink : String → String → Option ℤ) (ids : List String) (force : Bool) (l : Ledger)
    → Distinct l.entries
    → Distinct (load_baselines sink ids force l).entries
unfolding load_baselines load_baseline
load_baselines-Distinct sink [] force l d = d
load_baselines-Distinct sink (id ∷ ids) force l d =
    load_baselines-Distinct sink ids force (load_baseline sink id force l)
      (asked-Distinct sink id force (baseline_begin id l) l d)

pub flush_tick-Distinct :
    (answer : String → Answer) (sink : String → String → Option ℤ) (w : World)
    → Distinct w.ledger.entries
    → Distinct (flush_tick answer sink w).ledger.entries
unfolding flush_tick
flush_tick-Distinct answer sink w d =
    load_baselines-Distinct sink (pending_ids w.ledger.entries) true _
      (flush_all-Distinct answer (dirty_ids w.ledger.dirty) w d)
