-- ===== src/Budget/Flush/Tick.antt =====
-- The ticks of internal/harvester/budget.go: flushTick, loadBaselines and rebaselineAll when nothing
-- interrupts them. The workers of loadBaselines change one row each, so their order does not matter.
pub mod Seen
pub mod Distinctness
pub mod Converges
pub mod Lost
use inferbus.Budget.Flush.{Answer, Flight, World, call_bucket, flush_begin, flush_end}
use inferbus.Base.{Bool, List, Option, String, [], false, none, some, true, ℤ, ◌∷◌}
use inferbus.Base.{string_eq}
use inferbus.Dict.{Dict}
use inferbus.Budget.{Ledger, baseline_begin, baseline_end, pending_ids, rebaseline_ids}

-- `flushOne` from its first unlock on, if it got there.
pub call_and_end : Answer → Option Flight → World → World
call_and_end a none w = w
call_and_end a (some f) w = record (call_bucket a f w) {
  ledger = flush_end f a w.ledger;
  flight = none;
}

-- `flushOne`, whose call on BUDGETS ends so.
unfoldable pub flush_one : Answer → String → World → World
flush_one a id w = let begun = flush_begin id w in call_and_end a begun.flight begun

unfoldable pub flush_all : (String → Answer) → List String → World → World
flush_all answer [] w = w
flush_all answer (id ∷ ids) w = flush_all answer ids (flush_one (answer id) id w)

-- `loadBaseline`, where `MonthToDate` for an id and a month is `none` on an error.
asked : (String → String → Option ℤ) → String → Bool → Option String → Ledger → Ledger
asked sink id force none l = l
asked sink id force (some month) l = elim (sink id month) [
  | none ↦ l
  | some used ↦ baseline_end id month used force l
]

unfoldable pub load_baseline : (String → String → Option ℤ) → String → Bool → Ledger → Ledger
unfolding asked
load_baseline sink id force l = asked sink id force (baseline_begin id l) l

unfoldable pub load_baselines : (String → String → Option ℤ) → List String → Bool → Ledger → Ledger
load_baselines sink [] force l = l
load_baselines sink (id ∷ ids) force l =
    load_baselines sink ids force (load_baseline sink id force l)

unfoldable pub dirty_ids : Dict String Bool → List String
dirty_ids [] = []
dirty_ids ((id, _) ∷ dirty) = id ∷ dirty_ids dirty

-- `flushTick`: both lists are taken before the first flush. It ends by reporting `budget_gauge`.
unfoldable pub flush_tick : (String → Answer) → (String → String → Option ℤ) → World → World
flush_tick answer sink w =
    let flushed = flush_all answer (dirty_ids w.ledger.dirty) w in
    record flushed {
      ledger = load_baselines sink (pending_ids w.ledger.entries) true flushed.ledger;
    }

-- `rebaselineAll`
unfoldable pub rebaseline_all : (String → String → Option ℤ) → Ledger → Ledger
rebaseline_all sink l = load_baselines sink (rebaseline_ids l.entries) false l
