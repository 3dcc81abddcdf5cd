-- ===== src/Projector/Resync.antt =====
-- ResyncKV and the start of RunKVProjectors, internal/controlplane/kvproj.go: both projectors, on
-- their buckets and markers. The replay of the store's log does not fail by itself.
pub mod Steps
pub mod Recovers
use inferbus.Base.{List, Option, String, [], ap, none, pos, some, ℕ}
use inferbus.Base.{string_eq}
use inferbus.Dict.{Dict}
use inferbus.Projector.{
  Envelope, Error, Fault, fine, kv_failed, later_faults, load_failed, lost, next_fault, unacked,
  undecodable,
}
use inferbus.Projector.Marker.{Markers, load, save}
use inferbus.Projector.Aliases.{Aliases, aliases_apply}
use inferbus.Projector.Keys.{KeyEntry, keys_apply, warmup}
use inferbus.ApiKey.Codec.{Protos}
use inferbus.Alias.Codec.{Protos as AliasProtos}

-- The buckets ALIASES, KEYS and CP_MARKERS, and the faults to come. A bucket that does not exist
-- counts as empty.
pub record Buckets : Type 0 where
  pub aliases : Aliases
  pub keys : Dict String (Option KeyEntry)
  pub markers : Markers
  pub faults : List Fault

pub data Step {ℓ} (A : Type ℓ) : Type ℓ where
  done : A → Buckets → Step A
  stop : Error → Buckets → Step A

abbrev pub M : Type 0 → Type 0
M A = Buckets → Step A

infixl 5 ◌>>=◌ ◌>>◌
abbrev pub ◌>>=◌ : {A B : Type 0} → M A → (A → M B) → M B
◌>>=◌ m f b = elim (m b) [ done a b' ↦ f a b' | stop x b' ↦ stop x b' ]

abbrev pub ◌>>◌ : {B : Type 0} → M (Unit {0}) → M B → M B
m >> n = m >>= λ _. n

-- One request to JetStream: `b'` are the buckets after it, if it has its effect.
abbrev request : (Buckets → Buckets) → M (Unit {0})
request change b = elim (next_fault b.faults) [
  | fine ↦ done tt (record (change b) { faults = later_faults b.faults })
  | lost ↦ stop kv_failed (record b { faults = later_faults b.faults })
  | unacked ↦ stop kv_failed (record (change b) { faults = later_faults b.faults })
]

-- `ensureKVBucket`: an existing bucket keeps its content.
ensure_bucket : M (Unit {0})
ensure_bucket = request (λ b. b)

-- `resetKVBucket`
reset_aliases : M (Unit {0})
unfolding ensure_bucket
reset_aliases = do request (λ b. record b { aliases = [] }); ensure_bucket

reset_keys : M (Unit {0})
unfolding ensure_bucket
reset_keys = do request (λ b. record b { keys = [] }); ensure_bucket

abbrev pub durable_proj_aliases : String
durable_proj_aliases = "proj-kv-aliases"

abbrev pub durable_proj_keys : String
durable_proj_keys = "proj-kv-keys"

save_marker : String → ℕ → M (Unit {0})
save_marker name position = request (λ b. record b { markers = save name position b.markers })

loaded : Option ℕ → M ℕ
loaded none b = stop load_failed b
loaded (some position) b = done position b

load_marker : String → M ℕ
unfolding loaded
load_marker name b = (request (λ c. c) >> loaded (load name b.markers)) b

-- `warmup` reads the log and writes no bucket.
warmed : Option (Dict String String) → M (Dict String String)
warmed none b = stop undecodable b
warmed (some hashes) b = done hashes b

replayed : {A : Type 0} → A → Option Error → M A
replayed a none b = done a b
replayed a (some x) b = stop x b

-- `projection.Replay` from `pos` through `apply`, and what it leaves in the buckets.
pub replay_aliases : AliasProtos → List Envelope → ℕ → M (Unit {0})
unfolding replayed
replay_aliases p log start b =
    let q =
      aliases_apply p
        (record { store = b.aliases; pos = start; failed = none; saved = start; faults = b.faults })
        log in
    replayed tt q.failed (record b {
      aliases = q.store;
      markers = save durable_proj_aliases q.saved b.markers;
      faults = q.faults;
    })

pub replay_keys : Protos → List Envelope → ℕ → Dict String String → M (Dict String String)
unfolding replayed
replay_keys p log start hashes b =
    let q =
      keys_apply p
        (record {
          store = record { bucket = b.keys; hash_by_id = hashes; faults = b.faults };
          pos = start;
          failed = none;
          saved = start;
          faults = b.faults;
        })
        log in
    replayed q.store.hash_by_id q.failed (record b {
      keys = q.store.bucket;
      markers = save durable_proj_keys q.saved b.markers;
      faults = q.faults;
    })

-- `RunKVProjectors` up to the live consumers. The result is the keys projector's `hashByID`.
unfoldable pub start_projectors : AliasProtos → Protos → List Envelope → M (Dict String String)
unfolding ensure_bucket load_marker warmed
start_projectors ap kp log = do
  ensure_bucket
  ensure_bucket
  ensure_bucket
  aliases_pos ← load_marker durable_proj_aliases
  keys_pos ← load_marker durable_proj_keys
  hashes ← warmed (warmup kp log [])
  replay_aliases ap log aliases_pos
  replay_keys kp log keys_pos hashes

-- `ResyncKV`
unfoldable pub resync_kv : AliasProtos → Protos → List Envelope → M (Dict String String)
unfolding reset_aliases reset_keys ensure_bucket save_marker warmed
resync_kv ap kp log = do
  reset_aliases
  reset_keys
  ensure_bucket
  save_marker durable_proj_aliases 0
  save_marker durable_proj_keys 0
  hashes ← warmed (warmup kp log [])
  replay_aliases ap log 0
  replay_keys kp log 0 hashes
