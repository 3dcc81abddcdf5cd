-- ===== src/ApiKey/Lifecycle.antt =====
-- What a key's life keeps: internal/controlplane/apikey/decider.go.
use inferbus.Base.{string_eq, List, [], arith, false, refl, true, ◌∙◌, ◌∷◌, ◌≡◌}
use inferbus.ApiKey.{
  ApiKey, Command, absent, create, decide, disable, evolve, evolve_all, handle, rotate, run,
  set_allowlist, set_limits, unset,
}

handle-retired : (s : ApiKey) (c : Command) → absent s ≡ false → s.disabled ≡ true → handle s c ≡ s
unfolding handle decide evolve_all
handle-retired s (create c) h d = ground arith
handle-retired s (rotate n) h d = ground arith
handle-retired s disable h d = ground arith
handle-retired s (set_allowlist a) h d = ground arith
handle-retired s (set_limits r b) h d = ground arith
handle-retired s unset h d = ground arith

-- A disabled key is never changed again, by any list of commands: it is not enabled, rotated, or
-- given another allowlist or other limits.
pub run-retired :
    (s : ApiKey) (cs : List Command) → absent s ≡ false → s.disabled ≡ true → run s cs ≡ s
unfolding run
run-retired s [] h d = refl
run-retired s (c ∷ cs) h d = rw (handle-retired s c h d) (run-retired s cs h d)

-- The identity that usage and tenancy are attributed by.
abbrev pub SameIdentity : ApiKey → ApiKey → Type 0
SameIdentity s t = (t.id ≡ s.id) × (t.org ≡ s.org) × (t.project ≡ s.project) × (t.name ≡ s.name)

handle-SameIdentity : (s : ApiKey) (c : Command) → absent s ≡ false → SameIdentity s (handle s c)
unfolding handle decide evolve evolve_all
handle-SameIdentity s (create c) h = ground arith
handle-SameIdentity s (rotate n) h = ground arith
handle-SameIdentity s disable h = ground arith
handle-SameIdentity s (set_allowlist a) h = ground arith
handle-SameIdentity s (set_limits r b) h = ground arith
handle-SameIdentity s unset h = ground arith

-- Once a key exists, no list of commands changes its id, org, project or name.
pub run-SameIdentity :
    (s : ApiKey) (cs : List Command) → absent s ≡ false → SameIdentity s (run s cs)
unfolding run
run-SameIdentity s [] h = (refl, refl, refl, refl)
run-SameIdentity s (c ∷ cs) h =
    let step = handle-SameIdentity s c h in
    let rest = run-SameIdentity (handle s c) cs (rw step.0 h) in
    (rest.0 ∙ step.0, rest.1 ∙ step.1, rest.2 ∙ step.2, rest.3 ∙ step.3)
