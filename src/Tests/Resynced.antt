-- ===== src/Tests/Resynced.antt =====
-- ResyncKV and the start of RunKVProjectors, internal/controlplane/kvproj.go, at work.
use inferbus.Base.{List, String, [], arith, refl, ◌∷◌, ◌≡◌}
use inferbus.Base.{string_eq}
use inferbus.Dict.{Dict, insert, lookup}
use inferbus.Text.{cut}
use inferbus.ApiKey.{Command, create, created, decide, evolve, evolve_all, rotate, rotated}
use inferbus.ApiKey.Codec.{decode}
use inferbus.Alias.Codec.{Protos as AliasProtos, decode as decode_alias}
use inferbus.Projector.{Envelope}
use inferbus.Projector.Keys.Log.{Records, event, nothing, other}
use inferbus.Projector.Keys.Replay.{history}
use inferbus.Projector.Keys.World.{empty_world, project, run_world, state_of, step}
use inferbus.Projector.StreamId.{split_alias_stream_id}
use inferbus.Projector.Marker.{save}
use inferbus.Projector.Resync.{Buckets, done, resync_kv, start_projectors}
use inferbus.Projector.Keys.{apply_event}
use inferbus.Projector.Resync.Recovers.{
  IsCaughtUp, IsLogOf, resync_kv-IsCaughtUp, start_projectors-IsCaughtUp,
}
use inferbus.Tests.Restarted.{ci_created, creation, on_key, only, readers, reads_as}

abbrev alias_readers : AliasProtos
alias_readers = record { set_proto = reads_as ("llama", []); deleted_proto = reads_as tt }

abbrev alias_set_envelope : Envelope
alias_set_envelope = record {
  global_position = 2;
  stream_type = "alias";
  stream_id = "g_fast";
  event = record { type_url = "controlplane.v1.AliasSet"; schema_version = 1; payload = [] };
}

abbrev whole_log : List Envelope
whole_log = creation ∷ alias_set_envelope ∷ on_key 3 "controlplane.v1.KeyRotated" ∷ []

abbrev key_commands : List (String × Command)
key_commands = ("k1", create ci_created) ∷ ("k1", rotate "h2") ∷ []

-- KEYS holds a foreign entry and the markers stand past the log.
abbrev spoiled : Buckets
spoiled = record {
  aliases = [];
  keys = only "forged";
  markers = save "proj-kv-keys" 9 [];
  faults = [];
}

recorded_events :
    Records readers (("k1", created ci_created) ∷ ("k1", rotated "h2" "h1") ∷ []) whole_log
unfolding decode
recorded_events = event refl refl (other refl (event refl refl nothing))

whole_log-IsLogOf : IsLogOf alias_readers readers whole_log key_commands
unfolding history decide evolve evolve_all step project apply_event lookup insert
    split_alias_stream_id decode decode_alias cut
whole_log-IsLogOf = record {
  fresh = ((refl, refl, refl), ((refl, refl), tt));
  recorded = recorded_events;
  readable = ((λ e. cc), ((λ e. tt), ((λ e. cc), tt)));
  ascending = omega arith;
  fits = omega arith;
}

resync_kv-IsCaughtUp_example :
    (hashes : Dict String String) × (b' : Buckets) × (resync_kv alias_readers readers whole_log
        spoiled
      ≡ done hashes b')
    × IsCaughtUp alias_readers readers whole_log
        (state_of (run_world empty_world key_commands))
        b'
        hashes
resync_kv-IsCaughtUp_example =
    resync_kv-IsCaughtUp alias_readers readers whole_log key_commands spoiled refl whole_log-IsLogOf

abbrev resynced :
    (hashes : Dict String String) × (b' : Buckets) × (resync_kv alias_readers readers whole_log
        spoiled
      ≡ done hashes b')
    × IsCaughtUp alias_readers readers whole_log
        (state_of (run_world empty_world key_commands))
        b'
        hashes
resynced =
    resync_kv-IsCaughtUp alias_readers readers whole_log key_commands spoiled refl whole_log-IsLogOf

start_projectors-IsCaughtUp_example :
    (hashes' : Dict String String) × (b' : Buckets) × (start_projectors alias_readers readers
        whole_log resynced.1
      ≡ done hashes' b')
    × (b'.keys ≡ (resynced.1).keys)
    × (b'.aliases ≡ (resynced.1).aliases)
    × IsCaughtUp alias_readers readers whole_log
        (state_of (run_world empty_world key_commands))
        b'
        hashes'
start_projectors-IsCaughtUp_example =
    start_projectors-IsCaughtUp alias_readers readers whole_log key_commands resynced.1
      whole_log-IsLogOf resynced.3
