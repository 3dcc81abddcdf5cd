-- ===== src/Projector/Keys/Alike.antt =====
-- Two keys projectors over the same aggregates, whose private maps differ: what is fresh for one is
-- fresh for the other, and the same events follow (internal/controlplane/kvproj.go).
use inferbus.Base.{
  Bool-cases, List, Option-cases, String, [], ap, arith, inl, inr, is_some, none, refl, sym, ◌∙◌,
  ◌∷◌, ◌≡◌,
}
use inferbus.Base.{string_eq}
use inferbus.Dict.{Dict, insert, lookup}
use inferbus.ApiKey.{
  ApiKey, Command, create, decide, decided, disable, evolve_all, rotate, set_allowlist, set_limits,
  unset,
}
use inferbus.Projector.Keys.{Step, done, stop}
use inferbus.Projector.Keys.World.{
  AllFresh, IsFresh, IsProjected, World, after_project, or_initial, project, run_world, state_of,
  step,
}
use inferbus.Projector.Keys.History.{step-IsProjected}
use inferbus.Projector.Keys.Replay.{history}

-- Both projectors show the same aggregates.
pub record Alike (v w : World) : Type 0 where
  pub left : IsProjected v
  pub right : IsProjected w
  pub same_states : v.states ≡ w.states

module _ {v w : World} (a : Alike v w) where
  state_of-Alike : (id : String) → state_of v id ≡ state_of w id
  state_of-Alike id = ap (λ states. or_initial (lookup id states)) a.same_states

  -- A hash that stands under no key in the one bucket stands under none in the other.
  free-Alike : (h : String) → lookup h v.keys.bucket ≡ none → lookup h w.keys.bucket ≡ none
  free-Alike h free = elim (Option-cases (lookup h w.keys.bucket)) [
    | inl e ↦ e
    | inr (entry, e) ↦
        let (id, live, hash, shown) = a.right.agrees.owned h entry e in
        absurd (
          ground (
            arith,
            free,
            state_of-Alike id,
            a.left.agrees.shown id (rw (state_of-Alike id) live),
            live,
            hash,
          ))
  ]

  IsFresh-Alike : (c : Command) → IsFresh v c → IsFresh w c
  IsFresh-Alike (create c) (id, hash, free) = (id, hash, free-Alike c.hash free)
  IsFresh-Alike (rotate n) (hash, free) = (hash, free-Alike n free)
  IsFresh-Alike disable f = tt
  IsFresh-Alike (set_allowlist allow) f = tt
  IsFresh-Alike (set_limits rpm budget) f = tt
  IsFresh-Alike unset f = tt

states-after_project :
    (states : Dict String ApiKey) (r : Step (Unit {0})) → (after_project states r).states ≡ states
states-after_project states (done u k) = refl
states-after_project states (stop x k) = refl

-- The aggregates move the same way whatever the projector does.
states-step :
    (w : World) (id : String) (c : Command)
    → (step w (id, c)).states
      ≡ insert id (evolve_all (state_of w id) (decided (decide (state_of w id) c))) w.states
unfolding step
states-step w id c = elim (Bool-cases (is_some w.stopped)) [
  | inl h ↦ rw h refl
  | inr h ↦ rw h (states-after_project _ (project id (decided (decide (state_of w id) c)) w.keys))
]

step-Alike :
    (v w : World) (id : String) (c : Command)
    → Alike v w
    → IsFresh v c
    → Alike (step v (id, c)) (step w (id, c))
step-Alike v w id c a f = record {
  left = step-IsProjected v id a.left c f;
  right = step-IsProjected w id a.right c (IsFresh-Alike a c f);
  same_states =
      states-step v id c ∙ rw (state_of-Alike a id, a.same_states) refl ∙ sym (states-step w id c);
}

-- What is fresh for one is fresh for the other, all along a history, and the histories are the same.
pub history-Alike :
    (v w : World) (cs : List (String × Command))
    → Alike v w
    → AllFresh v cs
    → AllFresh w cs × (history w cs ≡ history v cs)
unfolding history
history-Alike v w [] a f = (tt, refl)
history-Alike v w ((id, c) ∷ cs) a f =
    let (fresh, same) =
      history-Alike (step v (id, c)) (step w (id, c)) cs (step-Alike v w id c a f.0) f.1 in
    ((IsFresh-Alike a c f.0, fresh), rw (state_of-Alike a id, same) refl)

-- After the history both show the same aggregates.
pub run_world-Alike :
    (v w : World) (cs : List (String × Command))
    → Alike v w
    → AllFresh v cs
    → Alike (run_world v cs) (run_world w cs)
unfolding run_world
run_world-Alike v w [] a f = a
run_world-Alike v w ((id, c) ∷ cs) a f =
    run_world-Alike (step v (id, c)) (step w (id, c)) cs (step-Alike v w id c a f.0) f.1
