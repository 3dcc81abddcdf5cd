-- ===== src/Projector/Keys/Restart.antt =====
-- Restarting the keys projector of internal/controlplane/kvproj.go from its marker.
use inferbus.Base.{
  string_eq, List, Option, String, [], ap, arith, none, refl, some, true, ℕ, ◌++◌, ◌<◌, ◌==◌, ◌∙◌,
  ◌∷◌, ◌≡◌, ◌≤◌,
}
use inferbus.Dict.{Dict, lookup}
use inferbus.Wire.{coded}
use inferbus.ApiKey.{Event, allowlist_changed, rotated}
use inferbus.ApiKey.Codec.{Protos, decode}
use inferbus.Projector.{Envelope, Projector, apply, deliver, deliver_all, no_entry}
use inferbus.Projector.Delivery.{apply-append}
use inferbus.Projector.Keys.Events.{allowlist_stops, rotated_stops}
use inferbus.Projector.Keys.{
  KeyEntry, Keys, apply_event, apply_one, keys_apply, keys_apply_one, start_keys, stop, warmup,
}

-- Every position is at or below the marker.
abbrev pub AllOld : ℕ → List Envelope → Type 0
AllOld n [] = Unit {0}
AllOld n (e ∷ es) = (e.global_position ≤ n) × AllOld n es

keys_apply_old :
    (p : Protos) (q : Projector Keys) (es : List Envelope) → AllOld q.pos es → keys_apply p q es ≡ q
unfolding keys_apply apply deliver_all deliver
keys_apply_old p q [] h = ground arith
keys_apply_old p q (e ∷ es) h = ground (arith, keys_apply_old p q es h.1)

-- The projector at the marker, over the warmed-up map.
abbrev at_marker : Dict String (Option KeyEntry) → ℕ → Dict String String → Projector Keys
at_marker bucket saved hashes = record {
  store = record { bucket = bucket; hash_by_id = hashes; faults = [] };
  pos = saved;
  failed = none;
  saved = saved;
  faults = [];
}

keys_apply_past :
    (p : Protos) (q : Projector Keys) (before es : List Envelope)
    → AllOld q.pos before
    → keys_apply p q (before ++ es) ≡ keys_apply p q es
unfolding keys_apply
keys_apply_past p q before es old =
    apply-append (λ t. t == "apikey") (keys_apply_one p) q before es
    ∙ ap (λ r. apply (λ t. t == "apikey") (keys_apply_one p) r es) (keys_apply_old p q before old)

module _ (p : Protos) (bucket : Dict String (Option KeyEntry)) (saved : ℕ) (e : Envelope) where
  -- The first envelope past the marker fails: the start fails with its error, at the same marker.
  stuck_at :
      (hashes : Dict String String) (before later : List Envelope) (ev : Event)
      → AllOld saved before
      → saved < e.global_position
      → (e.stream_type == "apikey") ≡ true
      → decode p e.event ≡ coded ev
      → apply_event e.stream_id ev (at_marker bucket saved hashes).store
        ≡ stop no_entry (at_marker bucket saved hashes).store
      → let r = keys_apply p (at_marker bucket saved hashes) (before ++ e ∷ later) in
        (r.failed ≡ some no_entry) × (r.saved ≡ saved) × (r.store.bucket ≡ bucket)
  unfolding keys_apply apply deliver_all deliver keys_apply_one apply_one
  stuck_at hashes before later ev old new own read stops =
      rw (keys_apply_past p (at_marker bucket saved hashes) before (e ∷ later) old)
        (ground (arith, new, own, read, stops))

  -- If the marker stands before a rotation whose writes are all in KEYS (the previous hash is gone
  -- from the bucket), every start of the projector fails on that rotation, leaves marker and bucket as
  -- they are, and so will fail again: only a resync brings it back.
  pub start-rotation_stuck :
      (before later : List Envelope) (n previous : String) {hashes : Dict String String}
      → warmup p (before ++ e ∷ later) [] ≡ some hashes
      → AllOld saved before
      → saved < e.global_position
      → (e.stream_type == "apikey") ≡ true
      → decode p e.event ≡ coded (rotated n previous)
      → lookup previous bucket ≡ none
      → (q : Projector Keys) × (start_keys p bucket saved (before ++ e ∷ later) ≡ some q)
        × (q.failed ≡ some no_entry)
        × (q.saved ≡ saved)
        × (q.store.bucket ≡ bucket)
  unfolding start_keys
  start-rotation_stuck before later n previous {hashes} warmed old new own read gone =
      let start = at_marker bucket saved hashes in
      let (stopped, kept, same) =
        stuck_at hashes before later (rotated n previous) old new own read
          (rotated_stops e.stream_id start.store refl n previous gone) in
      (keys_apply p start (before ++ e ∷ later), rw warmed, stopped, kept, same)

  -- The warm-up reads the whole log, past the marker. If an allowlist change stands right behind the
  -- marker and a later rotation to a hash that is not in KEYS is what the warm-up recorded for the
  -- key, every start of the projector fails on the allowlist change.
  pub start-warmup_ahead_stuck :
      (before later : List Envelope) (allow : List String) (ahead : String)
      {hashes : Dict String String}
      → warmup p (before ++ e ∷ later) [] ≡ some hashes
      → lookup e.stream_id hashes ≡ some ahead
      → lookup ahead bucket ≡ none
      → AllOld saved before
      → saved < e.global_position
      → (e.stream_type == "apikey") ≡ true
      → decode p e.event ≡ coded (allowlist_changed allow)
      → (q : Projector Keys) × (start_keys p bucket saved (before ++ e ∷ later) ≡ some q)
        × (q.failed ≡ some no_entry)
        × (q.saved ≡ saved)
        × (q.store.bucket ≡ bucket)
  unfolding start_keys
  start-warmup_ahead_stuck before later allow ahead {hashes} warmed known gone old new own read =
      let start = at_marker bucket saved hashes in
      let (stopped, kept, same) =
        stuck_at hashes before later (allowlist_changed allow) old new own read
          (allowlist_stops e.stream_id start.store refl ahead known allow gone) in
      (keys_apply p start (before ++ e ∷ later), rw warmed, stopped, kept, same)
