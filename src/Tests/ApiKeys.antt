-- ===== src/Tests/ApiKeys.antt =====
-- internal/controlplane/apikey at work, and the way of a key to the gateway.
use inferbus.Base.{
  List, Option, String, [], arith, false, if◌then◌else◌, none, pos, refl, some, str_eq_iff, true, ℕ,
  ◌==◌, ◌↔◌, ◌∷◌, ◌≡◌,
}
use inferbus.Base.{string_eq}
use inferbus.Dict.{Dict, delete, insert, lookup}
use inferbus.Wire.{EncodedEvent, Proto}
use inferbus.ApiKey.{ApiKey, Command, CreateKey, create, decide, evolve, evolve_all, rotate}
use inferbus.ApiKey.Codec.{Protos}
use inferbus.Projector.Keys.{KeyEntry, apply_event}
use inferbus.Projector.Keys.World.{AllFresh, IsProjected, empty_world, project, run_world, step}
use inferbus.Projector.Keys.History.{run_world-IsProjected}
use inferbus.Gateway.Iam.{key_config, keys_snapshot, kv_authenticate}
use inferbus.Gateway.Iam.KeysBucket.{IsHolder, empty-IsProjected, kv_authenticate_iff}

abbrev ci_key : ApiKey
ci_key = record {
  id = "k1";
  org = "acme";
  project = "p1";
  name = "ci";
  hash = "h2";
  allow = "fast" ∷ [];
  rate_limit_rpm = pos 0;
  monthly_token_budget = pos 1000;
  disabled = true;
}

only_h1_lem :
    (m : String) (b : List ℕ)
    → (if m == "h1" then some (7 ∷ []) else none) ≡ some b
    → some "h1" ≡ some m
only_h1_lem m b h = ground (arith, str_eq_iff m "h1", h)

never : {M : Type 0} → (m : M) → (b : List ℕ) → none ≡ some b → none ≡ some m
never m b h = ground (arith, h)

abbrev refusing : {M : Type 0} → Proto M
refusing = record { marshal = λ m. none; unmarshal = λ b. none; round_trip = never }

abbrev key_protos : Protos
key_protos = record {
  created_proto = refusing;
  rotated_proto = refusing;
  disabled_proto = record {
    marshal = λ m. if m == "h1" then some (7 ∷ []) else none;
    unmarshal = λ b. some "h1";
    round_trip = only_h1_lem;
  };
  allowlist_changed_proto = refusing;
  limits_changed_proto = refusing;
}

abbrev disabled_event : EncodedEvent
disabled_event = record {
  type_url = "controlplane.v1.KeyDisabled";
  schema_version = 1;
  payload = 7 ∷ [];
}

abbrev ci_created : CreateKey
ci_created = record {
  id = "k1";
  org = "acme";
  project = "p1";
  name = "ci";
  hash = "h1";
  allow = "fast" ∷ [];
  rate_limit_rpm = pos 0;
  monthly_token_budget = pos 1000;
}

abbrev history : List (String × Command)
history = ("k1", create ci_created) ∷ ("k1", rotate "h2") ∷ []

history_fresh : AllFresh empty_world history
unfolding lookup step project apply_event decide evolve_all evolve insert
history_fresh = ((refl, refl, refl), ((refl, refl), tt))

run_world-IsProjected_example : IsProjected (run_world empty_world history)
run_world-IsProjected_example =
    run_world-IsProjected empty_world history empty-IsProjected history_fresh

abbrev ci_entry : KeyEntry
ci_entry = record {
  id = "k1";
  org = "acme";
  project = "p1";
  name = "ci";
  allow = "fast" ∷ [];
  rate_limit_rpm = pos 0;
  monthly_token_budget = pos 1000;
  disabled = false;
}

abbrev caught_up : Dict String (Option KeyEntry)
caught_up = ("h2", some ci_entry) ∷ []

abbrev hash_of : String → String
hash_of s = if s == "secret" then "h2" else "h9"

kv_authenticate_iff_example :
    (kv_authenticate hash_of (keys_snapshot caught_up) "secret" ≡ some (key_config ci_entry)) ↔ (
      (id : String) × IsHolder
        (run_world empty_world history)
        (hash_of "secret")
        id
        (key_config ci_entry))
unfolding lookup run_world step project apply_event decide evolve_all evolve insert delete
kv_authenticate_iff_example =
    kv_authenticate_iff hash_of history history_fresh caught_up (refl, tt) (λ h. refl) "secret"
      (key_config ci_entry)
