-- ===== src/Projector/Keys/Rebuild.antt =====
-- A history of key commands replayed onto an empty KEYS bucket, whatever `hashByID` holds at the
-- start, and what the warm-up makes of it: internal/controlplane/kvproj.go.
use inferbus.Base.{List, String, [], ap, arith, none, refl, some, subst, sym, ◌∙◌, ◌≡◌}
use inferbus.Base.{string_eq}
use inferbus.Dict.{Dict, lookup}
use inferbus.ApiKey.{Command}
use inferbus.ApiKey.Codec.{Protos}
use inferbus.Projector.{Envelope, Projector}
use inferbus.Projector.Quiet.{Ascends, IsQuiet, last_position}
use inferbus.Projector.Keys.{Keys, keys_apply, warmup}
use inferbus.Projector.Keys.View.{Agrees}
use inferbus.Projector.Keys.World.{
  AllFresh, IsProjected, World, empty_world, or_initial, run_world, state_of,
}
use inferbus.Projector.Keys.Replay.{history, project_all, project_all-history, project_all-warms}
use inferbus.Projector.Keys.Alike.{Alike, history-Alike, run_world-Alike}
use inferbus.Projector.Keys.Log.{Records, keys_apply-Records, warmup-Records}

abbrev pub warmed_world : Dict String String → World
warmed_world hashes = record {
  states = [];
  keys = record { bucket = []; hash_by_id = hashes; faults = [] };
  stopped = none;
}

pub warmed_world-IsProjected : (hashes : Dict String String) → IsProjected (warmed_world hashes)
unfolding lookup
warmed_world-IsProjected hashes = record {
  running = refl;
  no_faults = refl;
  agrees = record { shown = λ id live. ground arith; owned = λ h v e. ground arith };
}

-- The replay of a history onto an empty bucket, whatever the map at the start.
module _ (kp : Protos) (log : List Envelope) (cs : List (String × Command))
    (hashes : Dict String String) (fresh : AllFresh empty_world cs)
    (recorded : Records kp (history empty_world cs) log) (asc : Ascends 0 log) where
  both : Alike empty_world (warmed_world hashes)
  both = record {
    left = warmed_world-IsProjected [];
    right = warmed_world-IsProjected hashes;
    same_states = refl;
  }

  pub replayed_keys :
      (q : Projector Keys)
      → IsQuiet 0 q
      → q.store ≡ (warmed_world hashes).keys
      → IsQuiet (last_position 0 log) (keys_apply kp q log)
        × ((keys_apply kp q log).store ≡ (run_world (warmed_world hashes) cs).keys)
  replayed_keys q v e =
      let (fresh', same) = history-Alike empty_world (warmed_world hashes) cs both fresh in
      keys_apply-Records kp 0 (history empty_world cs) log q
        (run_world (warmed_world hashes) cs).keys recorded asc v (ap (λ s. s.faults) e)
        (ap (project_all (history empty_world cs)) e
          ∙ ap (λ h. project_all h (warmed_world hashes).keys) (sym same)
          ∙ project_all-history (warmed_world hashes) cs (warmed_world-IsProjected hashes) fresh')

  pub shown_after :
      Agrees
        (state_of (run_world empty_world cs))
        (λ h. lookup h (run_world (warmed_world hashes) cs).keys.bucket)
        (λ id. lookup id (run_world (warmed_world hashes) cs).keys.hash_by_id)
  shown_after =
      let a = run_world-Alike empty_world (warmed_world hashes) cs both fresh in
      subst
        (λ states.
          Agrees (λ id. or_initial (lookup id states))
            (λ h. lookup h (run_world (warmed_world hashes) cs).keys.bucket)
            (λ id. lookup id (run_world (warmed_world hashes) cs).keys.hash_by_id))
        (sym a.same_states) a.right.agrees

  pub warmup_after : warmup kp log [] ≡ some (run_world empty_world cs).keys.hash_by_id
  warmup_after =
      warmup-Records kp (history empty_world cs) log [] recorded
      ∙ ap some (
          sym (
            project_all-warms (history empty_world cs) empty_world.keys
              (run_world empty_world cs).keys refl
              (project_all-history empty_world cs (warmed_world-IsProjected []) fresh)))
