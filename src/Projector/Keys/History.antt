-- ===== src/Projector/Keys/History.antt =====
-- Every history of key commands, projected event by event as it is decided: the KEYS bucket shows
-- the aggregates (internal/controlplane/kvproj.go, internal/controlplane/apikey/decider.go).
use inferbus.Base.{
  string_eq, Bool-cases, List, String, [], arith, false, inl, inr, refl, true, ◌∷◌, ◌≡◌,
}
use inferbus.Dict.{insert}
use inferbus.ApiKey.{
  ApiKey, Command, Event, absent, allowlist_changed, create, created, decide, decided, disable,
  evolve, evolve_all, key_disabled, limits_changed, rotate, rotated, set_allowlist, set_limits,
  unset,
}
use inferbus.Projector.Keys.{Step, apply_event, done, stop, ◌>>◌}
use inferbus.Projector.Keys.Events.{allowlist_lem, limits_lem}
use inferbus.Projector.Keys.View.{Moves-Agrees, is_live}
use inferbus.Projector.Keys.World.{
  AllFresh, IsFresh, IsProjected, World, after_project, project, run_world, state_of, step,
}
use inferbus.Projector.Keys.Follows.{
  Follows, created-Follows, disabled-Follows, rewritten-Follows, rotated-Follows, stays-Follows,
}

module _ (w : World) (id : String) (p : IsProjected w) where
  followed :
      (t : ApiKey) (r : Step (Unit {0}))
      → Follows w id t r
      → IsProjected (after_project (insert id t w.states) r)
  followed t (done u k) (quiet, m) = record {
    running = refl;
    no_faults = quiet;
    agrees = Moves-Agrees p.agrees m;
  }
  followed t (stop x k) f = absurd f

  no_event : (c : Command) → decided (decide (state_of w id) c) ≡ [] → IsProjected (step w (id, c))
  unfolding step project evolve_all
  no_event c e =
      rw (p.running, e) (followed (state_of w id) (done tt w.keys) (stays-Follows w id p))

  one_event :
      (c : Command) (e : Event)
      → decided (decide (state_of w id) c) ≡ e ∷ []
      → Follows w id (evolve (state_of w id) e) (apply_event id e w.keys)
      → IsProjected (step w (id, c))
  unfolding step project evolve_all
  one_event c e h f =
      rw (p.running, h)
        (followed (evolve (state_of w id) e) (◌>>◌ (apply_event id e) (done tt) w.keys)
          (unit_bind (apply_event id e w.keys) f))
    where
      unit_bind :
          (r : Step (Unit {0}))
          → Follows w id (evolve (state_of w id) e) r
          → Follows w id
              (evolve (state_of w id) e)
              (elim r [ done a k' ↦ done tt k' | stop x k' ↦ stop x k' ])
      unit_bind (done u k) g = g
      unit_bind (stop x k) g = g

module _ (w : World) (id : String) (p : IsProjected w) where
  -- A key that exists and is not disabled, by the two tests that the decider makes.
  live_tests :
      absent (state_of w id) ≡ false
      → (state_of w id).disabled ≡ false
      → is_live (state_of w id) ≡ true
  live_tests h d = ground arith

  -- A mutation of a key that is not live is refused and emits nothing; of a live key, one event.
  pub step-IsProjected : (c : Command) → IsFresh w c → IsProjected (step w (id, c))
  unfolding decide evolve
  step-IsProjected (create c) f = elim (Bool-cases (absent (state_of w id))) [
    | inl none_yet ↦
        one_event w id p (create c) (created c) (rw none_yet) (created-Follows w id p c none_yet f)
    | inr exists ↦ no_event w id p (create c) (rw exists)
  ]
  step-IsProjected (rotate n) f = elim (Bool-cases (is_live (state_of w id))) [
    | inl live ↦
        one_event w id p (rotate n) (rotated n (state_of w id).hash) (ground arith)
          (rotated-Follows w id p live n f)
    | inr gone ↦ no_event w id p (rotate n) (ground arith)
  ]
  step-IsProjected disable f = elim (Bool-cases (is_live (state_of w id))) [
    | inl live ↦
        one_event w id p disable (key_disabled (state_of w id).hash) (ground arith)
          (disabled-Follows w id p live)
    | inr gone ↦ no_event w id p disable (ground arith)
  ]
  step-IsProjected (set_allowlist allow) f = elim (Bool-cases (is_live (state_of w id))) [
    | inl live ↦
        let (known, found, given) = p.agrees.shown id live in
        one_event w id p (set_allowlist allow) (allowlist_changed allow) (ground arith) (
          rewritten-Follows w id p live (allowlist_changed allow) _ refl (ground arith) refl
            (allowlist_lem id w.keys p.no_faults _ known allow _ found))
    | inr gone ↦ no_event w id p (set_allowlist allow) (ground arith)
  ]
  step-IsProjected (set_limits rpm budget) f = elim (Bool-cases (is_live (state_of w id))) [
    | inl live ↦
        let (known, found, given) = p.agrees.shown id live in
        one_event w id p (set_limits rpm budget) (limits_changed rpm budget) (ground arith) (
          rewritten-Follows w id p live (limits_changed rpm budget) _ refl (ground arith) refl
            (limits_lem id w.keys p.no_faults _ known rpm budget _ found))
    | inr gone ↦ no_event w id p (set_limits rpm budget) (ground arith)
  ]
  step-IsProjected unset f = no_event w id p unset refl

-- If no KV operation fails, from the empty world or any that is projected: whatever commands are given
-- to whatever keys, as long as every minted hash is non-empty and not in use and keys are created
-- under non-empty ids, the projector never stops, and afterwards KEYS holds under a hash the view of
-- a key exactly when that key is live with this hash.
pub run_world-IsProjected :
    (w : World) (cs : List (String × Command))
    → IsProjected w
    → AllFresh w cs
    → IsProjected (run_world w cs)
unfolding run_world
run_world-IsProjected w [] p f = p
run_world-IsProjected w ((id, c) ∷ cs) p f =
    run_world-IsProjected (step w (id, c)) cs (step-IsProjected w id p c f.0) f.1
