-- ===== src/Tests/Ticks.antt =====
-- The KEYS watch and the ticks of internal/harvester/budget.go at work.
use inferbus.Budget.Flush.{Step, World, fine, keys_snapshot, step, steps, uses}
use inferbus.Budget.Flush.Settled.{steps-InBudgets}
use inferbus.Budget.Flush.Tick.{flush_tick}
use inferbus.Budget.Flush.Tick.Converges.{ShowsRow, flush_tick_twice-ShowsRow}
use inferbus.Budget.Watch.{Occurrence, consume_keys, delivers, meanwhile, on_connect, updates}
use inferbus.Budget.Watch.Enforced.{Meets, consume_keys-Meets}
use inferbus.Base.{List, Option, String, [], arith, false, none, pos, refl, some, ℤ, ◌∷◌, ◌≡◌}
use inferbus.Base.{string_eq}
use inferbus.Dict.{insert, lookup}
use inferbus.Budget.Keys.{
  apply_keys_snapshot, fold_keys, reconcile_folded, reconcile_keys, reconcile_one, vanish_all,
  vanish_one,
}
use inferbus.Budget.{add_usage, empty_ledger}
use inferbus.Gateway.Watch.{drop_entry, last_touch, or_before, put_entry, replayed}
use inferbus.Projector.Keys.{KeyEntry}

abbrev watched_key : ℤ → KeyEntry
watched_key budget = record {
  id = "k1";
  org = "acme";
  project = "p1";
  name = "ci";
  allow = [];
  rate_limit_rpm = pos 0;
  monthly_token_budget = budget;
  disabled = false;
}

abbrev idle_world : World
idle_world = record { ledger = empty_ledger; bucket = []; flight = none }

-- A rotation puts a second entry for the key, with a larger budget, while usage comes in.
abbrev rotation : List Occurrence
rotation =
    delivers "2024-05" (put_entry "h1" (some (watched_key (pos 100))))
    ∷ delivers "2024-05" replayed
    ∷ meanwhile (uses "k1" (pos 70))
    ∷ delivers "2024-05" (put_entry "h2" (some (watched_key (pos 200))))
    ∷ meanwhile (uses "k1" (pos 70))
    ∷ delivers "2024-05" (drop_entry "h1")
    ∷ []

-- The usage counted before the first baseline is overwritten by the sink's.
abbrev begun : List Step
begun =
    keys_snapshot "2024-05" (("h1", some (watched_key (pos 100))) ∷ []) ∷ uses "k1" (pos 70) ∷ []

abbrev begun_world : World
unfolding steps
begun_world = steps idle_world begun

abbrev month_to_date : String → String → Option ℤ
month_to_date id month = some (pos 140)

consume_keys-Meets_example :
    let s = consume_keys (on_connect idle_world) rotation in
    Meets "k1" s.working (lookup "k1" s.world.ledger.entries)
    × ((hash : String)
        → lookup hash s.working ≡ or_before (last_touch hash (updates rotation)) none)
consume_keys-Meets_example = consume_keys-Meets idle_world rotation "k1" (tt, (tt, tt)) refl

flush_tick_twice-ShowsRow_example :
    ShowsRow (month_to_date "k1") (lookup "k1" begun_world.ledger.entries) (
      lookup "k1"
        (flush_tick
          (λ id. fine)
          month_to_date
          (flush_tick (λ id. fine) month_to_date begun_world)).bucket)
unfolding steps lookup step add_usage apply_keys_snapshot reconcile_keys vanish_all reconcile_folded
    fold_keys insert reconcile_one vanish_one
flush_tick_twice-ShowsRow_example =
    flush_tick_twice-ShowsRow (λ id. fine) month_to_date "k1" begun_world (λ id. refl) refl
      (refl, tt) (steps-InBudgets "k1" empty_ledger [] begun (omega arith) tt refl)
      (λ live. (refl, λ waiting. (pos 140, refl)))
