-- ===== src/Projector/Keys/Log.antt =====
-- The log that the keys projector of internal/controlplane/kvproj.go replays and warms up on,
-- against the key events recorded in it.
use inferbus.Base.{
  Bool, List, String, [], ap, arith, false, none, refl, some, true, ℕ, ◌==◌, ◌∙◌, ◌∷◌, ◌≡◌,
}
use inferbus.Base.{string_eq}
use inferbus.Dict.{Dict}
use inferbus.Wire.{coded}
use inferbus.ApiKey.{Event}
use inferbus.ApiKey.Codec.{Protos, decode}
use inferbus.Projector.{Envelope, Projector, deliver}
use inferbus.Projector.Delivery.{apply-cons}
use inferbus.Projector.Quiet.{
  Ascends, IsQuiet, apply-nil, deliver-IsQuiet_other, deliver-IsQuiet_own, last_position,
}
use inferbus.Projector.Keys.{
  Keys, apply_event, apply_one, done, keys_apply, keys_apply_one, warm, warm_envelope, warmup,
}
use inferbus.Projector.Keys.Replay.{apply_event-warms, first_done, project_all, warm_all}

-- `Records p h log`: the apikey envelopes of the log carry the events `h`, and all of them decode.
pub data Records (p : Protos) : List (String × Event) → List Envelope → Type 0 where
  nothing : Records p [] []
  other :
      {h : List (String × Event)} {e : Envelope} {log : List Envelope}
      → (e.stream_type == "apikey") ≡ false
      → Records p h log
      → Records p h (e ∷ log)
  event :
      {h : List (String × Event)} {e : Envelope} {ev : Event} {log : List Envelope}
      → (e.stream_type == "apikey") ≡ true
      → decode p e.event ≡ coded ev
      → Records p h log
      → Records p ((e.stream_id, ev) ∷ h) (e ∷ log)

warm_other :
    (p : Protos) (e : Envelope) (m : Dict String String)
    → (e.stream_type == "apikey") ≡ false
    → warm_envelope p e m ≡ some m
unfolding warm_envelope
warm_other p e m foreign = rw foreign refl

warm_own :
    (p : Protos) (e : Envelope) (ev : Event) (m : Dict String String)
    → (e.stream_type == "apikey") ≡ true
    → decode p e.event ≡ coded ev
    → warm_envelope p e m ≡ some (warm e.stream_id ev m)
unfolding warm_envelope
warm_own p e ev m own read = rw (own, read) refl

-- The warm-up reads every envelope and ends with the map that the events make.
pub warmup-Records :
    (p : Protos) (h : List (String × Event)) (log : List Envelope) (m : Dict String String)
    → Records p h log
    → warmup p log m ≡ some (warm_all h m)
unfolding warmup warm_all
warmup-Records p h log m nothing = refl
warmup-Records p h _ m (other {e = e} {log = log} foreign r) =
    ground (arith, warm_other p e m foreign, warmup-Records p h log m r)
warmup-Records p _ _ m (event {h = h} {e = e} {ev = ev} {log = log} own read r) =
    ground (arith, warm_own p e ev m own read, warmup-Records p h log (warm e.stream_id ev m) r)

abbrev is_apikey : String → Bool
is_apikey t = t == "apikey"

one_event :
    (p : Protos) (e : Envelope) (ev : Event) (k k' : Keys)
    → k.faults ≡ []
    → decode p e.event ≡ coded ev
    → apply_event e.stream_id ev k ≡ done tt k'
    → keys_apply_one p k [] e ≡ (k', [], none)
unfolding keys_apply_one apply_one
one_event p e ev k k' quiet read applied =
    ground (arith, quiet, read, applied, apply_event-warms e.stream_id ev k k' quiet applied)

-- A replay of recorded events projects them one after another.
pub keys_apply-Records :
    (p : Protos) (n : ℕ) (h : List (String × Event)) (log : List Envelope) (q : Projector Keys)
    (k : Keys)
    → Records p h log
    → Ascends n log
    → IsQuiet n q
    → q.store.faults ≡ []
    → project_all h q.store ≡ done tt k
    → IsQuiet (last_position n log) (keys_apply p q log) × ((keys_apply p q log).store ≡ k)
unfolding keys_apply project_all
keys_apply-Records p n h log q k nothing asc v quiet e =
    rw (apply-nil is_apikey (keys_apply_one p) q) (v, ground (arith, e))
keys_apply-Records p n h _ q k (other {e = e} {log = log} foreign r) asc v quiet e_all =
    let (v', same) = deliver-IsQuiet_other is_apikey (keys_apply_one p) n q e v asc.0 foreign in
    let q' = deliver is_apikey (keys_apply_one p) q e in
    rw (apply-cons is_apikey (keys_apply_one p) q e log v.running) (
      keys_apply-Records p e.global_position h log q' k r asc.1 v' (ap (λ s. s.faults) same ∙ quiet)
        (rw same e_all))
keys_apply-Records p n _ _ q k (event {h = h} {e = e} {ev = ev} {log = log} own read r) asc v quiet
      e_all =
    let (k₁, first, rest) =
      first_done (apply_event e.stream_id ev) (project_all h) q.store k e_all in
    let (v', same) =
      deliver-IsQuiet_own is_apikey (keys_apply_one p) n q e v asc.0 k₁ own
        (one_event p e ev q.store k₁ quiet read first) in
    let q' = deliver is_apikey (keys_apply_one p) q e in
    rw (apply-cons is_apikey (keys_apply_one p) q e log v.running) (
      keys_apply-Records p e.global_position h log q' k r asc.1 v'
        (ap (λ s. s.faults) same ∙ (apply_event-warms e.stream_id ev q.store k₁ quiet first).1)
        (rw same rest))
