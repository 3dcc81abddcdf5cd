-- ===== src/Projector/Resync/Recovers.antt =====
-- What ResyncKV and a later start of RunKVProjectors leave behind: internal/controlplane/kvproj.go.
use inferbus.Base.{List, String, [], none, refl, some, ◌<◌, ◌^◌, ◌∙◌, ◌≡◌}
use inferbus.Base.{string_eq}
use inferbus.Dict.{Dict, lookup}
use inferbus.Text.{Text}
use inferbus.Text.{text_eq}
use inferbus.ApiKey.{ApiKey, Command}
use inferbus.ApiKey.Codec.{Protos}
use inferbus.Alias.Codec.{Protos as AliasProtos}
use inferbus.Projector.{Envelope, Projector}
use inferbus.Projector.Quiet.{Ascends, last_position}
use inferbus.Projector.Marker.{load, load-save, save}
use inferbus.Projector.Aliases.Log.{IsReadable, aliases_apply-shown, last_shown}
use inferbus.Projector.Aliases.{Aliases, aliases_apply}
use inferbus.Projector.Keys.{Keys, keys_apply}
use inferbus.Projector.Keys.View.{Agrees}
use inferbus.Projector.Keys.History.{run_world-IsProjected}
use inferbus.Projector.Keys.World.{AllFresh, empty_world, run_world, state_of}
use inferbus.Projector.Keys.Rebuild.{
  replayed_keys, shown_after, warmed_world, warmed_world-IsProjected, warmup_after,
}
use inferbus.Projector.Keys.Replay.{history}
use inferbus.Projector.Keys.Log.{Records}
use inferbus.Projector.Resync.Steps.{
  bind_done, replay_aliases_done, replay_aliases_old, replay_keys_done, replay_keys_old,
  resync_replays, start_replays,
}
use inferbus.Projector.Resync.{
  Buckets, done, durable_proj_aliases, durable_proj_keys, replay_aliases, replay_keys, resync_kv,
  start_projectors,
}

module _ (a : AliasProtos) (kp : Protos) (log : List Envelope) where
  -- The markers stand at the end of the log, KEYS shows the aggregates `state`, and ALIASES the last
  -- event of every alias; `hashes` is the keys projector's map.
  pub record IsCaughtUp (state : String → ApiKey) (b : Buckets) (hashes : Dict String String)
      : Type 0 where
    pub no_faults : b.faults ≡ []
    pub keys_agree : Agrees state (λ h. lookup h b.keys) (λ id. lookup id hashes)
    pub aliases_shown : (k : Text) → lookup k b.aliases ≡ last_shown a k log none
    pub alias_marker : load durable_proj_aliases b.markers ≡ some (last_position 0 log)
    pub keys_marker : load durable_proj_keys b.markers ≡ some (last_position 0 log)

  -- The log of a history of key commands, and of alias events that can be projected.
  pub record IsLogOf (cs : List (String × Command)) : Type 0 where
    pub fresh : AllFresh empty_world cs
    pub recorded : Records kp (history empty_world cs) log
    pub readable : IsReadable a log
    pub ascending : Ascends 0 log
    pub fits : last_position 0 log < 2 ^ 64

module _ (a : AliasProtos) (kp : Protos) (log : List Envelope) (cs : List (String × Command)) where
  -- With a JetStream that answers, ResyncKV succeeds on whatever ALIASES, KEYS and CP_MARKERS held
  -- before, and leaves them caught up with the log.
  pub resync_kv-IsCaughtUp :
      (b : Buckets)
      → b.faults ≡ []
      → IsLogOf a kp log cs
      → (hashes : Dict String String) × (b' : Buckets) × (resync_kv a kp log b ≡ done hashes b')
        × IsCaughtUp a kp log (state_of (run_world empty_world cs)) b' hashes
  unfolding lookup
  resync_kv-IsCaughtUp b quiet l =
      let hashes = (run_world empty_world cs).keys.hash_by_id in
      let read = warmup_after kp log cs hashes l.fresh l.recorded l.ascending in
      let qa : Projector Aliases = record {
        store = [];
        pos = 0;
        failed = none;
        saved = 0;
        faults = [];
      } in
      let qk : Projector Keys = record {
        store = (warmed_world hashes).keys;
        pos = 0;
        failed = none;
        saved = 0;
        faults = [];
      } in
      let (va, shown) =
        aliases_apply-shown a 0 log qa l.readable l.ascending
          (record { at = refl; marked = refl; running = refl; no_faults = refl }) in
      let (vk, same) =
        replayed_keys kp log cs hashes l.fresh l.recorded l.ascending qk
          (record { at = refl; marked = refl; running = refl; no_faults = refl }) refl in
      let n = last_position 0 log in
      let m0 = save durable_proj_keys 0 (save durable_proj_aliases 0 b.markers) in
      let b0 : Buckets = record { aliases = []; keys = []; markers = m0; faults = [] } in
      let b1 : Buckets = record {
        aliases = (aliases_apply a qa log).store;
        keys = [];
        markers = save durable_proj_aliases n m0;
        faults = [];
      } in
      let b2 : Buckets = record b1 {
        keys = (keys_apply kp qk log).store.bucket;
        markers = save durable_proj_keys n b1.markers;
      } in
      (
        (keys_apply kp qk log).store.hash_by_id,
        b2,
        resync_replays a kp log b hashes quiet read
            ∙ bind_done (replay_aliases a log 0) (λ _. replay_keys kp log 0 hashes) b0 b1 tt _
                (replay_aliases_done a log n 0 b0 refl va)
                (replay_keys_done kp log n 0 hashes b1 refl vk),
        record {
          no_faults = refl;
          keys_agree = rw same (shown_after kp log cs hashes l.fresh l.recorded l.ascending);
          aliases_shown = shown;
          alias_marker =
              load-save durable_proj_keys durable_proj_aliases n b1.markers l.fits
              ∙ load-save durable_proj_aliases durable_proj_aliases n m0 l.fits;
          keys_marker = load-save durable_proj_keys durable_proj_keys n b1.markers l.fits;
        },
      )

module _ (a : AliasProtos) (kp : Protos) (log : List Envelope) (cs : List (String × Command)) where
  -- RunKVProjectors starts on buckets that are caught up with the log, without an error: it finds
  -- nothing to replay, and its map, rebuilt from the log, fits KEYS as it stands.
  pub start_projectors-IsCaughtUp :
      (b : Buckets) {hashes : Dict String String}
      → IsLogOf a kp log cs
      → IsCaughtUp a kp log (state_of (run_world empty_world cs)) b hashes
      → (hashes' : Dict String String) × (b' : Buckets) × (start_projectors a kp log b
          ≡ done hashes' b')
        × (b'.keys ≡ b.keys)
        × (b'.aliases ≡ b.aliases)
        × IsCaughtUp a kp log (state_of (run_world empty_world cs)) b' hashes'
  start_projectors-IsCaughtUp b {hashes} l c =
      let n = last_position 0 log in
      let w = run_world empty_world cs in
      let hashes' = w.keys.hash_by_id in
      let read = warmup_after kp log cs hashes' l.fresh l.recorded l.ascending in
      let b1 : Buckets = record b {
        markers = save durable_proj_aliases n b.markers;
        faults = [];
      } in
      let b2 : Buckets = record b1 { markers = save durable_proj_keys n b1.markers } in
      (
        hashes',
        b2,
        start_replays a kp log b hashes' n n c.no_faults c.alias_marker c.keys_marker read
            ∙ bind_done (replay_aliases a log n) (λ _. replay_keys kp log n hashes') b b1 tt _
                (replay_aliases_old a log b c.no_faults l.ascending)
                (replay_keys_old kp log hashes' b1 refl l.ascending),
        refl,
        refl,
        record {
          no_faults = refl;
          keys_agree = record {
            shown = λ id live. (
              ((run_world-IsProjected empty_world cs (warmed_world-IsProjected [])
                    l.fresh).agrees.shown
                  id live).0,
              (c.keys_agree.shown id live).1,
              (c.keys_agree.shown id live).2,
            );
            owned = c.keys_agree.owned;
          };
          aliases_shown = c.aliases_shown;
          alias_marker =
              load-save durable_proj_keys durable_proj_aliases n b1.markers l.fits
              ∙ load-save durable_proj_aliases durable_proj_aliases n b.markers l.fits;
          keys_marker = load-save durable_proj_keys durable_proj_keys n b1.markers l.fits;
        },
      )
