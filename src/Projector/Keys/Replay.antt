-- ===== src/Projector/Keys/Replay.antt =====
-- The key events of a history, and the keys projector of internal/controlplane/kvproj.go over them:
-- on whichever `hashByID` it starts, the history is projected alike.
use inferbus.Base.{
  Bool-cases, List, Option, String, [], ap, arith, inl, inr, none, refl, some, str_eq_iff, sym,
  ◌++◌, ◌==◌, ◌∙◌, ◌∷◌, ◌≡◌,
}
use inferbus.Base.{string_eq}
use inferbus.Dict.{Dict, insert, lookup}
use inferbus.ApiKey.{
  ApiKey, Command, Event, allowlist_changed, created, decide, decided, evolve_all, key_disabled,
  limits_changed, rotated, unset,
}
use inferbus.Projector.{undecodable_entry}
use inferbus.Projector.Keys.{KeyEntry, Keys, M, Step, apply_event, done, stop, warm, ◌>>◌}
use inferbus.Projector.Keys.Events.{rotated_lem, rotated_stops}
use inferbus.Projector.Keys.World.{
  AllFresh, IsProjected, World, after_project, project, run_world, state_of, step,
}
use inferbus.Projector.Keys.History.{step-IsProjected}

abbrev pub tagged : String → List Event → List (String × Event)
tagged id [] = []
tagged id (e ∷ es) = (id, e) ∷ tagged id es

-- The events that the commands emit, with their streams, in the order of the log.
unfoldable pub history : World → List (String × Command) → List (String × Event)
history w [] = []
history w ((id, c) ∷ cs) =
    tagged id (decided (decide (state_of w id) c)) ++ history (step w (id, c)) cs

unfoldable pub project_all : List (String × Event) → M (Unit {0})
project_all [] = done tt
project_all ((id, e) ∷ h) = apply_event id e >> project_all h

-- What the warm-up makes of the events.
unfoldable pub warm_all : List (String × Event) → Dict String String → Dict String String
warm_all [] m = m
warm_all ((id, e) ∷ h) m = warm_all h (warm id e m)

-- A rotation from the empty hash deletes nothing.
nothing_deleted :
    (id n : String) (k : Keys) (entry : KeyEntry)
    → k.faults ≡ []
    → lookup "" k.bucket ≡ some (some entry)
    → apply_event id (rotated n "") k
      ≡ done tt (record {
        bucket = insert n (some (record entry { id = id })) k.bucket;
        hash_by_id = insert id n k.hash_by_id;
        faults = [];
      })
unfolding apply_event
nothing_deleted id n k entry quiet found = ground (arith, quiet, found)

undecodable_stops :
    (id n previous : String) (k : Keys)
    → k.faults ≡ []
    → lookup previous k.bucket ≡ some none
    → apply_event id (rotated n previous) k ≡ stop undecodable_entry k
unfolding apply_event
undecodable_stops id n previous k quiet found = ground (arith, quiet, found)

-- A rotation moves the map of the projector as the warm-up's.
rotated-warms :
    (id n previous : String) (k k' : Keys)
    → k.faults ≡ []
    → apply_event id (rotated n previous) k ≡ done tt k'
    → (k'.hash_by_id ≡ insert id n k.hash_by_id) × (k'.faults ≡ [])
rotated-warms id n previous k k' quiet h = go (lookup previous k.bucket) refl
  where
    go :
        (o : Option (Option KeyEntry))
        → lookup previous k.bucket ≡ o
        → (k'.hash_by_id ≡ insert id n k.hash_by_id) × (k'.faults ≡ [])
    go none e = ground (arith, rotated_stops id k quiet n previous e)
    go (some none) e = ground (arith, undecodable_stops id n previous k quiet e)
    go (some (some entry)) e = elim (Bool-cases (previous == "")) [
      | inl nothing ↦
          let same : previous ≡ "" = (str_eq_iff previous "").0 nothing in
          ground (arith, same, nothing_deleted id n k entry quiet (rw same at e), rw same at h)
      | inr given ↦ ground (arith, rotated_lem id k quiet n previous entry given e)
    ]

-- The projector's own map moves as the warm-up's, and no fault appears.
pub apply_event-warms :
    (id : String) (e : Event) (k k' : Keys)
    → k.faults ≡ []
    → apply_event id e k ≡ done tt k'
    → (k'.hash_by_id ≡ warm id e k.hash_by_id) × (k'.faults ≡ [])
unfolding apply_event
apply_event-warms id (created c) k k' quiet h = ground (arith, quiet, h)
apply_event-warms id (rotated n previous) k k' quiet h = rotated-warms id n previous k k' quiet h
apply_event-warms id (key_disabled hash) k k' quiet h = elim (Bool-cases (hash == "")) [
  | inl nothing ↦ ground (arith, quiet, rw nothing at h)
  | inr given ↦ ground (arith, quiet, rw given at h)
]
apply_event-warms id (allowlist_changed allow) k k' quiet h = ground (arith, quiet, h)
apply_event-warms id (limits_changed rpm budget) k k' quiet h = ground (arith, quiet, h)
apply_event-warms id unset k k' quiet h = ground (arith, quiet, h)

-- A first step that ends, before the rest.
pub first_done :
    (m n : M (Unit {0})) (k k' : Keys)
    → (m >> n) k ≡ done tt k'
    → (k₁ : Keys) × (m k ≡ done tt k₁) × (n k₁ ≡ done tt k')
first_done m n k k' h = go (m k) refl h
  where
    go :
        (r : Step (Unit {0}))
        → m k ≡ r
        → elim r [ done a k₁ ↦ n k₁ | stop x k₁ ↦ stop x k₁ ] ≡ done tt k'
        → (k₁ : Keys) × (m k ≡ done tt k₁) × (n k₁ ≡ done tt k')
    go (done a k₁) e h = (k₁, e, h)
    go (stop x k₁) e h = cc

bind_done :
    (m n : M (Unit {0})) (k k₁ : Keys) (r : Step (Unit {0}))
    → m k ≡ done tt k₁
    → n k₁ ≡ r
    → (m >> n) k ≡ r
bind_done m n k k₁ r e f = ap (λ s. elim s [ done a k₂ ↦ n k₂ | stop x k₂ ↦ stop x k₂ ]) e ∙ f

pub project_all-warms :
    (h : List (String × Event)) (k k' : Keys)
    → k.faults ≡ []
    → project_all h k ≡ done tt k'
    → k'.hash_by_id ≡ warm_all h k.hash_by_id
unfolding project_all warm_all
project_all-warms [] k k' quiet e = ground (arith, e)
project_all-warms ((id, ev) ∷ h) k k' quiet e =
    let (k₁, first, rest) = first_done (apply_event id ev) (project_all h) k k' e in
    let (warmed, still) = apply_event-warms id ev k k₁ quiet first in
    project_all-warms h k₁ k' still rest ∙ ap (warm_all h) warmed

project_all-append :
    (id : String) (es : List Event) (h : List (String × Event)) (k k₁ k' : Keys)
    → project id es k ≡ done tt k₁
    → project_all h k₁ ≡ done tt k'
    → project_all (tagged id es ++ h) k ≡ done tt k'
unfolding project project_all
project_all-append id [] h k k₁ k' e f = ground (arith, e, f)
project_all-append id (ev ∷ es) h k k₁ k' e f =
    let (k₂, first, rest) = first_done (apply_event id ev) (project id es) k k₁ e in
    bind_done (apply_event id ev) (project_all (tagged id es ++ h)) k k₂ (done tt k') first
      (project_all-append id es h k₂ k₁ k' rest f)

not_stopped :
    (states : Dict String ApiKey) (r : Step (Unit {0}))
    → (after_project states r).stopped ≡ none
    → r ≡ done tt (after_project states r).keys
not_stopped states (done tt k) h = refl
not_stopped states (stop x k) h = cc

-- What a step that does not stop did to the keys.
step_done :
    (w : World) (id : String) (c : Command)
    → w.stopped ≡ none
    → (step w (id, c)).stopped ≡ none
    → project id (decided (decide (state_of w id) c)) w.keys ≡ done tt (step w (id, c)).keys
unfolding step
step_done w id c running h =
    let es = decided (decide (state_of w id) c) in
    let states = insert id (evolve_all (state_of w id) es) w.states in
    let r = project id es w.keys in
    let e : step w (id, c) ≡ after_project states r = rw running refl in
    not_stopped states r (ap (λ v. v.stopped) (sym e) ∙ h) ∙ ap (λ v. done tt v.keys) (sym e)

-- A history that the projector follows to its end is the projection of its events.
pub project_all-history :
    (w : World) (cs : List (String × Command))
    → IsProjected w
    → AllFresh w cs
    → project_all (history w cs) w.keys ≡ done tt (run_world w cs).keys
unfolding history run_world project_all
project_all-history w [] p f = refl
project_all-history w ((id, c) ∷ cs) p f =
    let next = step-IsProjected w id p c f.0 in
    project_all-append id (decided (decide (state_of w id) c)) (history (step w (id, c)) cs) w.keys
      (step w (id, c)).keys (run_world (step w (id, c)) cs).keys
      (step_done w id c p.running next.running) (project_all-history (step w (id, c)) cs next f.1)
