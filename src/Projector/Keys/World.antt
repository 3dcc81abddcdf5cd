-- ===== src/Projector/Keys/World.antt =====
-- Histories of key commands, projected event by event as they are decided:
-- internal/controlplane/kvproj.go, internal/controlplane/apikey/decider.go.
use inferbus.Base.{
  string_eq, List, Option, String, [], arith, false, if◌then◌else◌, is_some, none, some, ◌==◌, ◌∷◌,
  ◌≡◌,
}
use inferbus.Dict.{Dict, insert, lookup, lookup-insert}
use inferbus.ApiKey.{
  ApiKey, Command, Event, create, decide, decided, disable, evolve_all, initial, rotate,
  set_allowlist, set_limits, unset,
}
use inferbus.Projector.{Error}
use inferbus.Projector.Keys.{Keys, M, Step, apply_event, done, stop, ◌>>◌}
use inferbus.Projector.Keys.View.{Agrees}

-- The aggregate streams, the projector, and the error that stopped it.
pub record World : Type 0 where
  pub states : Dict String ApiKey
  pub keys : Keys
  pub stopped : Option Error

abbrev pub or_initial : Option ApiKey → ApiKey
or_initial none = initial
or_initial (some s) = s

abbrev pub state_of : World → String → ApiKey
state_of w id = or_initial (lookup id w.states)

abbrev pub empty_world : World
empty_world = record {
  states = [];
  keys = record { bucket = []; hash_by_id = []; faults = [] };
  stopped = none;
}

-- The events of one stream, one after another.
unfoldable pub project : String → List Event → M (Unit {0})
project id [] = done tt
project id (e ∷ es) = apply_event id e >> project id es

abbrev pub after_project : Dict String ApiKey → Step (Unit {0}) → World
after_project states (done u k) = record { states = states; keys = k; stopped = none }
after_project states (stop x k) = record { states = states; keys = k; stopped = some x }

-- One command for the key stream `id`: decided, folded into the aggregate, and projected. A projector
-- that has stopped projects nothing more.
unfoldable pub step : World → String × Command → World
step w (id, c) =
    let s = state_of w id in
    let es = decided (decide s c) in
    let states = insert id (evolve_all s es) w.states in
    if is_some w.stopped
    then record w { states = states }
    else after_project states (project id es w.keys)

unfoldable pub run_world : World → List (String × Command) → World
run_world w [] = w
run_world w (c ∷ cs) = run_world (step w c) cs

-- A hash that is minted is not empty and not in use; a key is created under a non-empty id.
abbrev pub IsFresh : World → Command → Type 0
IsFresh w (create c) =
    ((c.id == "") ≡ false) × ((c.hash == "") ≡ false) × (lookup c.hash w.keys.bucket ≡ none)
IsFresh w (rotate new_hash) = ((new_hash == "") ≡ false) × (lookup new_hash w.keys.bucket ≡ none)
IsFresh w disable = Unit {0}
IsFresh w (set_allowlist allow) = Unit {0}
IsFresh w (set_limits rpm budget) = Unit {0}
IsFresh w unset = Unit {0}

abbrev pub AllFresh : World → List (String × Command) → Type 0
AllFresh w [] = Unit {0}
AllFresh w ((id, c) ∷ cs) = IsFresh w c × AllFresh (step w (id, c)) cs

-- The projector runs, no operation fails, and the bucket shows the aggregates.
pub record IsProjected (w : World) : Type 0 where
  pub running : w.stopped ≡ none
  pub no_faults : w.keys.faults ≡ []
  pub agrees : Agrees (state_of w) (λ h. lookup h w.keys.bucket) (λ id. lookup id w.keys.hash_by_id)

-- The world where key `id` is in state `t` and the projector in state `k`.
abbrev pub moved : World → String → ApiKey → Keys → World
moved w id t k = record { states = insert id t w.states; keys = k; stopped = none }

pub state_of-moved :
    (w : World) (id : String) (t : ApiKey) (k : Keys) (j : String)
    → state_of (moved w id t k) j ≡ (if id == j then t else state_of w j)
state_of-moved w id t k j = ground (arith, lookup-insert id j t w.states)
