-- ===== src/Projector/Resync/Steps.antt =====
-- The stages of ResyncKV and of the start of RunKVProjectors when nothing fails:
-- internal/controlplane/kvproj.go.
use inferbus.Base.{List, String, [], ap, arith, none, refl, some, subst, sym, ℕ, ◌==◌, ◌∙◌, ◌≡◌}
use inferbus.Base.{string_eq}
use inferbus.Dict.{Dict}
use inferbus.Text.{text_eq}
use inferbus.ApiKey.Codec.{Protos}
use inferbus.Alias.Codec.{Protos as AliasProtos}
use inferbus.Projector.{Envelope, Projector}
use inferbus.Projector.Quiet.{Ascends, IsQuiet, apply_old, last_position}
use inferbus.Projector.Marker.{load, save}
use inferbus.Projector.Aliases.{Aliases, aliases_apply, aliases_apply_one}
use inferbus.Projector.Keys.{Keys, keys_apply, keys_apply_one, warm, warmup}
use inferbus.Projector.Resync.{
  Buckets, M, Step, done, durable_proj_aliases, durable_proj_keys, replay_aliases, replay_keys,
  resync_kv, start_projectors, stop, ◌>>=◌, ◌>>◌,
}

-- The two replays, when they run to their end.
pub replay_aliases_done :
    (a : AliasProtos) (log : List Envelope) (n start : ℕ) (b : Buckets)
    → b.faults ≡ []
    → let q =
        aliases_apply a
          (record { store = b.aliases; pos = start; failed = none; saved = start; faults = [] })
          log in
      IsQuiet n q
      → replay_aliases a log start b
        ≡ done tt (record {
          aliases = q.store;
          keys = b.keys;
          markers = save durable_proj_aliases n b.markers;
          faults = [];
        })
unfolding replay_aliases
replay_aliases_done a log n start b quiet v =
    ground (arith, quiet, v.running, v.marked, v.no_faults)

pub replay_keys_done :
    (kp : Protos) (log : List Envelope) (n start : ℕ) (hashes : Dict String String) (b : Buckets)
    → b.faults ≡ []
    → let q =
        keys_apply kp
          (record {
            store = record { bucket = b.keys; hash_by_id = hashes; faults = [] };
            pos = start;
            failed = none;
            saved = start;
            faults = [];
          })
          log in
      IsQuiet n q
      → replay_keys kp log start hashes b
        ≡ done q.store.hash_by_id (record {
          aliases = b.aliases;
          keys = q.store.bucket;
          markers = save durable_proj_keys n b.markers;
          faults = [];
        })
unfolding replay_keys
replay_keys_done kp log n start hashes b quiet v =
    ground (arith, quiet, v.running, v.marked, v.no_faults)

pub bind_done :
    {A B : Type 0} (m : M A) (f : A → M B) (b b' : Buckets) (a : A) (r : Step B)
    → m b ≡ done a b'
    → f a b' ≡ r
    → (m >>= f) b ≡ r
bind_done m f b b' a r e h = ap (λ s. elim s [ done x c ↦ f x c | stop x c ↦ stop x c ]) e ∙ h

pub resync_replays :
    (a : AliasProtos) (kp : Protos) (log : List Envelope) (b : Buckets)
    (hashes : Dict String String)
    → b.faults ≡ []
    → warmup kp log [] ≡ some hashes
    → resync_kv a kp log b
      ≡ (replay_aliases a log 0 >> replay_keys kp log 0 hashes) (record {
        aliases = [];
        keys = [];
        markers = save durable_proj_keys 0 (save durable_proj_aliases 0 b.markers);
        faults = [];
      })
unfolding resync_kv
resync_replays a kp log b hashes quiet read = ground (arith, quiet, warm)

pub start_replays :
    (a : AliasProtos) (kp : Protos) (log : List Envelope) (b : Buckets)
    (hashes : Dict String String) (n m : ℕ)
    → b.faults ≡ []
    → load durable_proj_aliases b.markers ≡ some n
    → load durable_proj_keys b.markers ≡ some m
    → warmup kp log [] ≡ some hashes
    → start_projectors a kp log b ≡ (replay_aliases a log n >> replay_keys kp log m hashes) b
unfolding start_projectors
start_replays a kp log b hashes n m quiet an km read = ground (arith, quiet, an, km, read)

-- Replays from the end of the log.
pub replay_aliases_old :
    (a : AliasProtos) (log : List Envelope) (b : Buckets)
    → b.faults ≡ []
    → Ascends 0 log
    → let n = last_position 0 log in
      replay_aliases a log n b
      ≡ done tt (record b { markers = save durable_proj_aliases n b.markers; faults = [] })
unfolding aliases_apply
replay_aliases_old a log b quiet asc =
    let n = last_position 0 log in
    let q : Projector Aliases = record {
      store = b.aliases;
      pos = n;
      failed = none;
      saved = n;
      faults = [];
    } in
    let e : aliases_apply a q log ≡ q =
      apply_old (λ t. t == "alias") (aliases_apply_one a) q 0 log refl asc (omega arith) in
    replay_aliases_done a log n n b quiet (
      subst (IsQuiet n) (sym e)
        (record { at = refl; marked = refl; running = refl; no_faults = refl }))
    ∙ ap
        (λ (r : Projector Aliases). done tt (record {
          aliases = r.store;
          keys = b.keys;
          markers = save durable_proj_aliases n b.markers;
          faults = [];
        }))
        e

pub replay_keys_old :
    (kp : Protos) (log : List Envelope) (hashes : Dict String String) (b : Buckets)
    → b.faults ≡ []
    → Ascends 0 log
    → let n = last_position 0 log in
      replay_keys kp log n hashes b
      ≡ done hashes (record b { markers = save durable_proj_keys n b.markers; faults = [] })
unfolding keys_apply
replay_keys_old kp log hashes b quiet asc =
    let n = last_position 0 log in
    let q : Projector Keys = record {
      store = record { bucket = b.keys; hash_by_id = hashes; faults = [] };
      pos = n;
      failed = none;
      saved = n;
      faults = [];
    } in
    let e : keys_apply kp q log ≡ q =
      apply_old (λ t. t == "apikey") (keys_apply_one kp) q 0 log refl asc (omega arith) in
    replay_keys_done kp log n n hashes b quiet (
      subst (IsQuiet n) (sym e)
        (record { at = refl; marked = refl; running = refl; no_faults = refl }))
    ∙ ap
        (λ (r : Projector Keys). done r.store.hash_by_id (record {
          aliases = b.aliases;
          keys = r.store.bucket;
          markers = save durable_proj_keys n b.markers;
          faults = [];
        }))
        e
