-- ===== src/Budget/Watch.antt =====
-- The KEYS watch of internal/harvester/budget.go: consumeKeys with the ledger behind it, and the
-- attempts of watchKeys. Whatever the other goroutines do to the ledger comes between two updates as
-- a step of Budget.Flush.
pub mod Enforced
use inferbus.Budget.Flush.{Step, World, keys_snapshot, step}
use inferbus.Base.{
  Bool, List, Option, String, [], ap, false, if◌then◌else◌, map, refl, true, ◌+◌, ◌∙◌, ◌∷◌, ◌≡◌,
  ◌≤◌,
}
use inferbus.Base.{string_eq}
use inferbus.Dict.{Dict, delete, insert}
use inferbus.Projector.Keys.{KeyEntry}
use inferbus.Gateway.Watch.{
  Attempt, Backoff, Update, attempt_one, attempts, attempts-bounded, drop_entry, failed,
  max_backoff, min_backoff, put_entry, replayed, sleep_backoff, watched,
}

-- `working` and `synced` of `consumeKeys`.
pub record KeysWatch : Type 0 where
  pub working : Dict String (Option KeyEntry)
  pub synced : Bool
  pub world : World

-- A new connection, whatever the ledger holds from earlier ones.
abbrev pub on_connect : World → KeysWatch
on_connect w = record { working = []; synced = false; world = w }

-- What comes next: an update of KEYS in a month of the clock, or a step of another goroutine.
pub data Occurrence : Type 0 where
  delivers : String → Update (Option KeyEntry) → Occurrence
  meanwhile : Step → Occurrence

apply_working : String → KeysWatch → KeysWatch
apply_working now s = record s { world = step s.world (keys_snapshot now s.working) }

apply_once_synced : String → KeysWatch → KeysWatch
unfolding apply_working
apply_once_synced now s = if s.synced then apply_working now s else s

-- One turn of the loop of `consumeKeys`, or a step elsewhere.
unfoldable pub occur : KeysWatch → Occurrence → KeysWatch
unfolding apply_working apply_once_synced
occur s (delivers now (put_entry hash e)) =
    apply_once_synced now (record s { working = insert hash e s.working })
occur s (delivers now (drop_entry hash)) =
    apply_once_synced now (record s { working = delete hash s.working })
occur s (delivers now replayed) = apply_working now (record s { synced = true })
occur s (meanwhile t) = record s { world = step s.world t }

unfoldable pub consume_keys : KeysWatch → List Occurrence → KeysWatch
consume_keys s [] = s
consume_keys s (o ∷ os) = consume_keys (occur s o) os

-- How an attempt of `watchKeys` ends: no bucket, no stream info, no watcher, or a connection that
-- ends, of which `consumeKeys` returns whether it has synced.
pub data KeysAttempt : Type 0 where
  no_bucket no_stream no_watcher : KeysAttempt
  consumed : Bool → KeysAttempt

-- One turn of the loop of `watchKeys`.
unfoldable pub keys_attempt : Backoff → KeysAttempt → Backoff
keys_attempt s no_bucket = sleep_backoff (record s { attempt = s.attempt + 1 })
keys_attempt s no_stream = sleep_backoff (record s { attempt = s.attempt + 1 })
keys_attempt s no_watcher = sleep_backoff (record s { attempt = s.attempt + 1 })
keys_attempt s (consumed true) = record s { backoff = min_backoff; attempt = 0 }
keys_attempt s (consumed false) = record s { attempt = s.attempt + 1 }

unfoldable pub watch_keys : Backoff → List KeysAttempt → Backoff
watch_keys s [] = s
watch_keys s (a ∷ rest) = watch_keys (keys_attempt s a) rest

-- The updates of KEYS among the occurrences.
abbrev pub updates : List Occurrence → List (Update (Option KeyEntry))
updates [] = []
updates (delivers now u ∷ os) = u ∷ updates os
updates (meanwhile t ∷ os) = updates os

abbrev as_attempt : KeysAttempt → Attempt
as_attempt no_bucket = failed
as_attempt no_stream = failed
as_attempt no_watcher = failed
as_attempt (consumed synced) = watched synced

keys_attempt-attempt_one :
    (s : Backoff) (a : KeysAttempt) → keys_attempt s a ≡ attempt_one s (as_attempt a)
unfolding keys_attempt attempt_one
keys_attempt-attempt_one s no_bucket = refl
keys_attempt-attempt_one s no_stream = refl
keys_attempt-attempt_one s no_watcher = refl
keys_attempt-attempt_one s (consumed true) = refl
keys_attempt-attempt_one s (consumed false) = refl

-- The loop sleeps as the gateway's watch of KEYS does.
watch_keys-attempts :
    (s : Backoff) (tries : List KeysAttempt)
    → watch_keys s tries ≡ attempts s (map as_attempt tries)
unfolding watch_keys attempts
watch_keys-attempts s [] = refl
watch_keys-attempts s (a ∷ rest) =
    watch_keys-attempts (keys_attempt s a) rest
    ∙ ap (λ t. attempts t (map as_attempt rest)) (keys_attempt-attempt_one s a)

-- So its sleeps stay between the bounds.
pub watch_keys-bounded :
    (s : Backoff) (tries : List KeysAttempt)
    → min_backoff ≤ s.backoff
    → s.backoff ≤ max_backoff
    → (min_backoff ≤ (watch_keys s tries).backoff) × ((watch_keys s tries).backoff ≤ max_backoff)
watch_keys-bounded s tries low high =
    rw (watch_keys-attempts s tries) (attempts-bounded s (map as_attempt tries) low high)
