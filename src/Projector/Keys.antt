-- ===== src/Projector/Keys.antt =====
-- The KEYS projector: keysProjector of internal/controlplane/kvproj.go, and the key entry of
-- internal/cpkv/cpkv.go. A bucket value is the entry that its bytes decode to, or `none` if they do
-- not decode; JSON itself is not modelled.
pub mod View
pub mod Events
pub mod World
pub mod Follows
pub mod History
pub mod Restart
pub mod Replay
pub mod Alike
pub mod Log
pub mod Rebuild
use inferbus.Base.{
  string_eq, Bool, List, Option, String, [], false, if◌then◌else◌, none, pos, some, ℕ, ℤ, ◌==◌, ◌∷◌,
}
use inferbus.Dict.{Dict, delete, insert, lookup}
use inferbus.Wire.{Coded, coded, refused}
use inferbus.ApiKey.{
  CreateKey, Event, allowlist_changed, created, key_disabled, limits_changed, rotated, unset,
}
use inferbus.ApiKey.Codec.{Protos, decode}
use inferbus.Projector.{
  Applied, Envelope, Error, Fault, Projector, apply, fine, kv_failed, later_faults, lost,
  next_fault, no_entry, unacked, undecodable, undecodable_entry, unknown_key,
}

pub record KeyEntry : Type 0 where
  pub id : String
  pub org : String
  pub project : String
  pub name : String
  pub allow : List String
  pub rate_limit_rpm : ℤ
  pub monthly_token_budget : ℤ
  pub disabled : Bool

-- The KEYS bucket, `hashByID`, and the faults to come.
pub record Keys : Type 0 where
  pub bucket : Dict String (Option KeyEntry)
  pub hash_by_id : Dict String String
  pub faults : List Fault

pub data Step {ℓ} (A : Type ℓ) : Type ℓ where
  done : A → Keys → Step A
  stop : Error → Keys → Step A

abbrev pub M : Type 0 → Type 0
M A = Keys → Step A

infixl 5 ◌>>=◌ ◌>>◌
abbrev pub ◌>>=◌ : {A B : Type 0} → M A → (A → M B) → M B
◌>>=◌ m f k = elim (m k) [ done a k' ↦ f a k' | stop x k' ↦ stop x k' ]

abbrev pub ◌>>◌ : {B : Type 0} → M (Unit {0}) → M B → M B
m >> n = m >>= λ _. n

-- One bucket operation: `k` is the state after it, if it has its effect.
abbrev operate : {A : Type 0} → A → Keys → M A
operate a k' k = elim (next_fault k.faults) [
  | fine ↦ done a (record k' { faults = later_faults k.faults })
  | lost ↦ stop kv_failed (record k { faults = later_faults k.faults })
  | unacked ↦ stop kv_failed (record k' { faults = later_faults k.faults })
]

decoded : Option (Option KeyEntry) → M (Option KeyEntry)
decoded none k = done none k
decoded (some none) k = stop undecodable_entry k
decoded (some (some entry)) k = done (some entry) k

get : String → M (Option KeyEntry)
unfolding decoded
get hash k = (operate tt k >> decoded (lookup hash k.bucket)) k

put : String → KeyEntry → M (Unit {0})
put hash entry k = operate tt (record k { bucket = insert hash (some entry) k.bucket }) k

-- A delete of a missing key is no error.
delete_entry : String → M (Unit {0})
delete_entry hash k =
    if hash == "" then done tt k else operate tt (record k { bucket = delete hash k.bucket }) k

set_hash : String → String → M (Unit {0})
set_hash id hash k = done tt (record k { hash_by_id = insert id hash k.hash_by_id })

or_stop : {A : Type 0} → Option A → Error → M A
or_stop none x k = stop x k
or_stop (some a) x k = done a k

current_hash : String → M String
unfolding or_stop
current_hash id k = or_stop (lookup id k.hash_by_id) unknown_key k

unfoldable pub created_entry : String → CreateKey → KeyEntry
created_entry id c = record {
  id = id;
  org = c.org;
  project = c.project;
  name = c.name;
  allow = c.allow;
  rate_limit_rpm = c.rate_limit_rpm;
  monthly_token_budget = c.monthly_token_budget;
  disabled = false;
}

-- The switch of `applyOne`, for the event of the key stream `id`.
unfoldable pub apply_event : String → Event → M (Unit {0})
unfolding get put delete_entry set_hash or_stop current_hash created_entry
apply_event id (created c) = do put c.hash (created_entry id c); set_hash id c.hash
apply_event id (rotated new_hash previous) = do
  found ← get previous
  entry ← or_stop found no_entry
  put new_hash (record entry { id = id })
  delete_entry previous
  set_hash id new_hash
apply_event id (key_disabled hash) = delete_entry hash
apply_event id (allowlist_changed allow) = do
  hash ← current_hash id
  found ← get hash
  entry ← or_stop found no_entry
  put hash (record entry { id = id; allow = allow })
apply_event id (limits_changed rpm budget) = do
  hash ← current_hash id
  found ← get hash
  entry ← or_stop found no_entry
  put hash (record entry { id = id; rate_limit_rpm = rpm; monthly_token_budget = budget })
apply_event id unset = done tt

-- `applyOne`: the event is decoded first.
decoded_event : String → Coded Event → M (Unit {0})
decoded_event id (refused x) k = stop undecodable k
decoded_event id (coded e) k = apply_event id e k

unfoldable pub apply_one : Protos → Envelope → M (Unit {0})
unfolding decoded_event
apply_one p e = decoded_event e.stream_id (decode p e.event)

-- What one event of the warm-up writes into `hashByID`.
abbrev pub warm : String → Event → Dict String String → Dict String String
warm id (created c) m = insert id c.hash m
warm id (rotated new_hash previous) m = insert id new_hash m
warm id (key_disabled hash) m = m
warm id (allowlist_changed allow) m = m
warm id (limits_changed rpm budget) m = m
warm id unset m = m

warm_coded : String → Coded Event → Dict String String → Option (Dict String String)
warm_coded id (refused x) m = none
warm_coded id (coded e) m = some (warm id e m)

warm_envelope : Protos → Envelope → Dict String String → Option (Dict String String)
unfolding warm_coded
warm_envelope p e m =
    if e.stream_type == "apikey" then warm_coded e.stream_id (decode p e.event) m else some m

-- `warmup` over the whole log; `none` is its error. Replay in pages reads the same envelopes.
unfoldable pub warmup : Protos → List Envelope → Dict String String → Option (Dict String String)
unfolding warm_envelope
warmup p [] m = some m
warmup p (e ∷ es) m = elim (warm_envelope p e m) [ none ↦ none | some m' ↦ warmup p es m' ]

-- `applyOne` as the loop of `apply` takes it; the faults travel in the state.
abbrev keys_result : Step (Unit {0}) → Applied Keys
keys_result (done u k) = (k, k.faults, none)
keys_result (stop x k) = (k, k.faults, some x)

unfoldable pub keys_apply_one : Protos → Keys → List Fault → Envelope → Applied Keys
keys_apply_one p k faults e = keys_result (apply_one p e (record k { faults = faults }))

unfoldable pub keys_apply : Protos → Projector Keys → List Envelope → Projector Keys
keys_apply p = apply (λ t. t == "apikey") (keys_apply_one p)

abbrev started :
    Protos
    → Dict String (Option KeyEntry)
    → ℕ
    → List Envelope
    → Option (Dict String String)
    → Option (Projector Keys)
started p bucket saved log none = none
started p bucket saved log (some hashes) = some (
    keys_apply p
      (record {
        store = record { bucket = bucket; hash_by_id = hashes; faults = [] };
        pos = saved;
        failed = none;
        saved = saved;
        faults = [];
      })
      log)

-- How `RunKVProjectors` brings the keys projector up on a bucket and a marker that an earlier run
-- left: warm-up over the whole log, then replay from the marker (what stands at or below it is
-- skipped). `none` is a failed warm-up. The operations of this phase do not fail.
unfoldable pub start_keys :
    Protos → Dict String (Option KeyEntry) → ℕ → List Envelope → Option (Projector Keys)
start_keys p bucket saved log = started p bucket saved log (warmup p log [])
