-- ===== src/Gateway/Iam/KeysBucket.antt =====
-- The whole way of a key: commands decided by internal/controlplane/apikey/decider.go, projected by
-- internal/controlplane/kvproj.go, and read by internal/gateway/kviam.go.
use inferbus.Base.{
  List, Option, String, [], arith, none, refl, some, str_eq_iff, true, ◌↔◌, ◌∷◌, ◌≡◌,
}
use inferbus.Base.{string_eq}
use inferbus.Dict.{Dict, Distinct, lookup}
use inferbus.Gateway.Iam.{KeyConfig, key_config, keys_snapshot, kv_authenticate}
use inferbus.ApiKey.{Command}
use inferbus.Projector.Keys.{KeyEntry}
use inferbus.Projector.Keys.View.{is_live, view}
use inferbus.Projector.Keys.World.{AllFresh, IsProjected, World, empty_world, run_world, state_of}
use inferbus.Projector.Keys.History.{run_world-IsProjected}

-- The snapshot holds what the bucket holds, when no entry fails to decode.
abbrev config_of : Option (Option KeyEntry) → Option KeyConfig
config_of none = none
config_of (some none) = none
config_of (some (some row)) = some (key_config row)

lookup-keys_snapshot :
    (hash : String) (entries : Dict String (Option KeyEntry))
    → Distinct entries
    → lookup hash (keys_snapshot entries) ≡ config_of (lookup hash entries)
unfolding lookup keys_snapshot
lookup-keys_snapshot hash [] d = refl
lookup-keys_snapshot hash ((h, none) ∷ entries) d =
    ground (arith, str_eq_iff h hash, lookup-keys_snapshot hash entries d.1)
lookup-keys_snapshot hash ((h, some row) ∷ entries) d =
    ground (arith, str_eq_iff h hash, lookup-keys_snapshot hash entries d.1)

-- Key `id` is live, its current hash is the presented one, and `k` is its configuration.
abbrev pub IsHolder : World → String → String → KeyConfig → Type 0
IsHolder w hash id k =
    (is_live (state_of w id) ≡ true)
    × ((state_of w id).hash ≡ hash)
    × (k ≡ key_config (view id (state_of w id)))

-- A world that is projected, and a snapshot of KEYS that has caught up with it.
module _ (hash_key : String → String) (w : World) (p : IsProjected w)
    (entries : Dict String (Option KeyEntry)) (distinct : Distinct entries)
    (caught_up : (h : String) → lookup h entries ≡ lookup h w.keys.bucket) where
  let_in :
      (presented id : String) (k : KeyConfig)
      → IsHolder w (hash_key presented) id k
      → kv_authenticate hash_key (keys_snapshot entries) presented ≡ some k
  unfolding kv_authenticate
  let_in presented id k (live, same, is_k) = ground (
    arith,
    is_k,
    p.agrees.shown id live,
    caught_up (hash_key presented),
    lookup-keys_snapshot (hash_key presented) entries distinct,
  )

  holder :
      (presented : String) (k : KeyConfig) (o : Option (Option KeyEntry))
      → lookup (hash_key presented) w.keys.bucket ≡ o
      → config_of o ≡ some k
      → (id : String) × IsHolder w (hash_key presented) id k
  holder presented k none e h = ground arith
  holder presented k (some v) e h =
      let (id, live, same, is_v) = p.agrees.owned (hash_key presented) v e in
      (id, (live, same, ground (arith, is_v)))

  held :
      (presented : String) (k : KeyConfig)
      → kv_authenticate hash_key (keys_snapshot entries) presented ≡ some k
      → (id : String) × IsHolder w (hash_key presented) id k
  unfolding kv_authenticate
  held presented k h = holder presented k (lookup (hash_key presented) w.keys.bucket) refl (
      ground (
        arith,
        caught_up (hash_key presented),
        lookup-keys_snapshot (hash_key presented) entries distinct,
      ))

pub empty-IsProjected : IsProjected empty_world
unfolding lookup
empty-IsProjected = record {
  running = refl;
  no_faults = refl;
  agrees = record {
    shown = λ id live. ground (arith, live);
    owned = λ hash v h. ground (arith, h);
  };
}

-- Whatever commands are given to whatever keys, as long as every minted hash is non-empty and not in
-- use and keys are created under non-empty ids: a gateway whose snapshot has caught up with KEYS
-- accepts a presented text as a key's configuration exactly when that key is live and its current
-- hash is that of the text.
pub kv_authenticate_iff :
    (hash_key : String → String) (cs : List (String × Command))
    → AllFresh empty_world cs
    → (entries : Dict String (Option KeyEntry)) → Distinct entries
    → ((h : String) → lookup h entries ≡ lookup h (run_world empty_world cs).keys.bucket)
    → (presented : String) (k : KeyConfig)
    → (kv_authenticate hash_key (keys_snapshot entries) presented ≡ some k)
      ↔ ((id : String) × IsHolder (run_world empty_world cs) (hash_key presented) id k)
kv_authenticate_iff hash_key cs f entries distinct caught_up presented k =
    let w = run_world empty_world cs in
    let p = run_world-IsProjected empty_world cs empty-IsProjected f in
    (
      held hash_key w p entries distinct caught_up presented k,
      λ (id, h). let_in hash_key w p entries distinct caught_up presented id k h,
    )
