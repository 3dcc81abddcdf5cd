-- ===== src/Gateway/Watch.antt =====
-- The watch loop of internal/gateway/kviam.go: consumeKV, and the backoff of watchKV.
use mathlib.Core.Option
use inferbus.Base.{
  Bool, Bool-cases, List, Option, String, [], ap, arith, false, if◌then◌else◌, leb, ltb, nat_beq,
  none, refl, some, true, ℕ, ◌%◌, ◌*◌, ◌+◌, ◌==◌, ◌||◌, ◌∙◌, ◌∷◌, ◌≡◌, ◌≤◌,
}
use inferbus.Base.{string_eq}
use inferbus.Dict.{Dict, delete, insert, lookup, lookup-delete, lookup-insert}

-- What the watcher delivers: an entry, a deletion or a purge, and the nil entry that ends the replay.
pub data Update (A : Type 0) : Type 0 where
  put_entry : String → A → Update A
  drop_entry : String → Update A
  replayed : Update A

-- `applied` lists the snapshots handed to `apply`, the latest first.
pub record Watching (A : Type 0) : Type 0 where
  pub working : Dict String A
  pub synced : Bool
  pub applied : List (Dict String A)
  pub ready : Bool

-- A new connection; `ready` stays closed once it is.
abbrev pub connected : {A : Type 0} → Bool → Watching A
connected ready = record { working = []; synced = false; applied = []; ready = ready }

apply_if_synced : {A : Type 0} → Watching A → Watching A
apply_if_synced s = if s.synced then record s { applied = s.working ∷ s.applied } else s

-- One turn of the loop of `consumeKV`.
unfoldable pub consume_one : {A : Type 0} → Watching A → Update A → Watching A
unfolding apply_if_synced
consume_one s (put_entry k v) = apply_if_synced (record s { working = insert k v s.working })
consume_one s (drop_entry k) = apply_if_synced (record s { working = delete k s.working })
consume_one s replayed = record s { synced = true; applied = s.working ∷ s.applied; ready = true }

-- The updates until the channel closes.
unfoldable pub consume : {A : Type 0} → Watching A → List (Update A) → Watching A
consume s [] = s
consume s (u ∷ us) = consume (consume_one s u) us

-- How one attempt of `watchKV` ends: a failed lookup, or a watch that has or has not synced.
pub data Attempt : Type 0 where
  failed : Attempt
  watched : Bool → Attempt

-- The backoff in nanoseconds, the attempt's number, and the sleeps so far, the latest first.
pub record Backoff : Type 0 where
  pub backoff : ℕ
  pub attempt : ℕ
  pub slept : List ℕ

abbrev pub min_backoff : ℕ
min_backoff = 200000000

abbrev pub max_backoff : ℕ
max_backoff = 10000000000

abbrev pub first_attempt : Backoff
first_attempt = record { backoff = min_backoff; attempt = 0; slept = [] }

-- `kvSleepBackoff` when the context is not done.
unfoldable pub sleep_backoff : Backoff → Backoff
sleep_backoff s =
    let doubled = s.backoff * 2 in
    record s {
      backoff = if ltb max_backoff doubled then max_backoff else doubled;
      slept = s.backoff ∷ s.slept;
    }

-- One turn of the loop of `watchKV`.
unfoldable pub attempt_one : Backoff → Attempt → Backoff
attempt_one s failed = sleep_backoff (record s { attempt = s.attempt + 1 })
attempt_one s (watched true) = record s { backoff = min_backoff; attempt = 0 }
attempt_one s (watched false) = record s { attempt = s.attempt + 1 }

unfoldable pub attempts : Backoff → List Attempt → Backoff
attempts s [] = s
attempts s (a ∷ rest) = attempts (attempt_one s a) rest

-- `kvLogFailure`: whether a failure is logged.
unfoldable pub logs_failure : ℕ → Bool
logs_failure attempt = leb attempt 3 || nat_beq (attempt % 10) 0

-- The last update that touches a key: its value, or that it is gone.
abbrev pub touch : {A : Type 0} → String → Update A → Option (Option A)
touch k (put_entry j v) = if j == k then some (some v) else none
touch k (drop_entry j) = if j == k then some none else none
touch k replayed = none

abbrev or_else : {A : Type 0} → Option A → Option A → Option A
or_else none d = d
or_else (some x) d = some x

abbrev pub last_touch : {A : Type 0} → String → List (Update A) → Option (Option A)
last_touch k [] = none
last_touch k (u ∷ us) = or_else (last_touch k us) (touch k u)

abbrev pub or_before : {A : Type 0} → Option (Option A) → Option A → Option A
or_before none before = before
or_before (some now) before = now

abbrev pub has_replayed : {A : Type 0} → List (Update A) → Bool
has_replayed [] = false
has_replayed (put_entry k v ∷ us) = has_replayed us
has_replayed (drop_entry k ∷ us) = has_replayed us
has_replayed (replayed ∷ us) = true

touched :
    {A : Type 0}
    → (k : String) → (s : Watching A) → (u : Update A)
    → lookup k (consume_one s u).working ≡ or_before (touch k u) (lookup k s.working)
unfolding consume_one apply_if_synced
touched k s (put_entry j v) = ground (arith, lookup-insert j k v s.working)
touched k s (drop_entry j) = ground (arith, lookup-delete j k s.working)
touched k s replayed = refl

or_twice :
    {A : Type 0}
    → (x y : Option (Option A)) → (before : Option A)
    → or_before x (or_before y before) ≡ or_before (or_else x y) before
or_twice none y before = refl
or_twice (some x) y before = refl

pub working-consume :
    {A : Type 0}
    → (k : String) → (s : Watching A) → (us : List (Update A))
    → lookup k (consume s us).working ≡ or_before (last_touch k us) (lookup k s.working)
unfolding consume
working-consume k s [] = refl
working-consume k s (u ∷ us) =
    working-consume k (consume_one s u) us
    ∙ ap (or_before (last_touch k us)) (touched k s u)
    ∙ or_twice (last_touch k us) (touch k u) (lookup k s.working)

-- The latest snapshot handed to `apply`, if there is one.
abbrev pub latest : {A : Type 0} → List (Dict String A) → Option (Dict String A)
latest [] = none
latest (m ∷ ms) = some m

-- Until the replay has ended nothing is applied; from then on the latest snapshot is the working set.
abbrev IsCurrent : {A : Type 0} → Watching A → Type 0
IsCurrent s = latest s.applied ≡ (if s.synced then some s.working else none)

consume_one-IsCurrent :
    {A : Type 0}
    → (s : Watching A) → (u : Update A) → IsCurrent s
    → IsCurrent (consume_one s u)
      × ((consume_one s u).synced ≡ (s.synced || has_replayed (u ∷ [])))
      × ((consume_one s u).ready ≡ (s.ready || has_replayed (u ∷ [])))
unfolding consume_one apply_if_synced
consume_one-IsCurrent s (put_entry k v) h = ground (arith, Bool-cases s.synced)
consume_one-IsCurrent s (drop_entry k) h = ground (arith, Bool-cases s.synced)
consume_one-IsCurrent s replayed h = ground arith

has_replayed_cons :
    {A : Type 0}
    → (u : Update A) → (us : List (Update A))
    → has_replayed (u ∷ us) ≡ (has_replayed (u ∷ []) || has_replayed us)
has_replayed_cons (put_entry k v) us = refl
has_replayed_cons (drop_entry k) us = refl
has_replayed_cons replayed us = refl

consume-IsCurrent :
    {A : Type 0}
    → (s : Watching A) → (us : List (Update A)) → IsCurrent s
    → (latest (consume s us).applied
        ≡ (if s.synced || has_replayed us then some (consume s us).working else none))
      × ((consume s us).ready ≡ (s.ready || has_replayed us))
unfolding consume
consume-IsCurrent s [] h = ground arith
consume-IsCurrent s (u ∷ us) h =
    let step = consume_one-IsCurrent s u h in
    ground (
      arith,
      step,
      has_replayed_cons u us,
      consume-IsCurrent (consume_one s u) us step.0,
      Bool-cases (has_replayed (u ∷ [])),
    )

-- On a new connection, whatever it delivers: once the replay has ended, a snapshot has been applied,
-- and the latest one maps each key to what the last update of this key left; before, no snapshot is
-- applied. The provider is ready if it was before or the replay has ended.
pub consume-latest :
    {A : Type 0}
    → (ready : Bool) → (us : List (Update A)) → (k : String)
    → (Option.map (lookup k) (latest (consume (connected ready) us).applied)
        ≡ (if has_replayed us then some (or_before (last_touch k us) none) else none))
      × ((consume (connected ready) us).ready ≡ (ready || has_replayed us))
unfolding lookup
consume-latest ready us k =
    ground
      (arith, consume-IsCurrent (connected ready) us refl, working-consume k (connected ready) us)

-- The sleep before a retry stays between its bounds, whatever the attempts do.
pub attempts-bounded :
    (s : Backoff) (rest : List Attempt)
    → min_backoff ≤ s.backoff
    → s.backoff ≤ max_backoff
    → (min_backoff ≤ (attempts s rest).backoff) × ((attempts s rest).backoff ≤ max_backoff)
unfolding attempts attempt_one sleep_backoff
attempts-bounded s [] low high = (low, high)
attempts-bounded s (failed ∷ rest) low high =
    ground (arith, attempts-bounded (attempt_one s failed) rest)
attempts-bounded s (watched true ∷ rest) low high =
    ground (arith, attempts-bounded (attempt_one s (watched true)) rest)
attempts-bounded s (watched false ∷ rest) low high =
    ground (arith, attempts-bounded (attempt_one s (watched false)) rest)
