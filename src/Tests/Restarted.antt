-- ===== src/Tests/Restarted.antt =====
-- The keys projector of internal/controlplane/kvproj.go brought up again at work.
use inferbus.Base.{List, Option, String, [], arith, false, none, pos, refl, some, ℕ, ◌∷◌, ◌≡◌}
use inferbus.Base.{string_eq}
use inferbus.Dict.{Dict, insert, lookup}
use inferbus.Wire.{Proto}
use inferbus.ApiKey.{CreateKey}
use inferbus.ApiKey.Codec.{Protos, decode}
use inferbus.Projector.{Envelope, Projector, no_entry}
use inferbus.Projector.Keys.{KeyEntry, Keys, start_keys, warmup}
use inferbus.Projector.Keys.Restart.{start-rotation_stuck, start-warmup_ahead_stuck}

pub never_marshalled : {M : Type 0} → (d m : M) → (b : List ℕ) → none ≡ some b → some d ≡ some m
never_marshalled d m b h = ground (arith, h)

-- A message type of which only one message is read.
abbrev pub reads_as : {M : Type 0} → M → Proto M
reads_as d = record {
  marshal = λ m. none;
  unmarshal = λ b. some d;
  round_trip = never_marshalled d;
}

abbrev pub ci_created : CreateKey
ci_created = record {
  id = "k1";
  org = "acme";
  project = "p1";
  name = "ci";
  hash = "h1";
  allow = [];
  rate_limit_rpm = pos 0;
  monthly_token_budget = pos 0;
}

abbrev pub readers : Protos
readers = record {
  created_proto = reads_as ci_created;
  rotated_proto = reads_as ("h2", "h1");
  disabled_proto = reads_as "h2";
  allowlist_changed_proto = reads_as ("fast" ∷ []);
  limits_changed_proto = reads_as (pos 0, pos 0);
}

abbrev pub on_key : ℕ → String → Envelope
on_key n url = record {
  global_position = n;
  stream_type = "apikey";
  stream_id = "k1";
  event = record { type_url = url; schema_version = 1; payload = [] };
}

abbrev pub creation : Envelope
creation = on_key 1 "controlplane.v1.KeyCreated"

abbrev pub rotation : Envelope
rotation = on_key 2 "controlplane.v1.KeyRotated"

abbrev pub ci_entry : KeyEntry
ci_entry = record {
  id = "k1";
  org = "acme";
  project = "p1";
  name = "ci";
  allow = [];
  rate_limit_rpm = pos 0;
  monthly_token_budget = pos 0;
  disabled = false;
}

abbrev pub only : String → Dict String (Option KeyEntry)
only hash = (hash, some ci_entry) ∷ []

-- The rotation is in KEYS, its position is not in the marker.
start-rotation_stuck_example :
    let b = only "h2" in
    (q : Projector Keys) × (start_keys readers b 1 (creation ∷ rotation ∷ []) ≡ some q)
    × (q.failed ≡ some no_entry)
    × (q.saved ≡ 1)
    × (q.store.bucket ≡ b)
unfolding warmup decode lookup insert
start-rotation_stuck_example =
    start-rotation_stuck readers (only "h2") 1 rotation (creation ∷ []) [] "h2" "h1" refl
      (omega arith, tt) (omega arith) refl refl refl

-- The marker stands before an allowlist change that a rotation follows.
start-warmup_ahead_stuck_example :
    let b = only "h1" in
    let change = on_key 2 "controlplane.v1.KeyAllowlistChanged" in
    let later = on_key 3 "controlplane.v1.KeyRotated" ∷ [] in
    (q : Projector Keys) × (start_keys readers b 1 (creation ∷ change ∷ later) ≡ some q)
    × (q.failed ≡ some no_entry)
    × (q.saved ≡ 1)
    × (q.store.bucket ≡ b)
unfolding warmup decode lookup insert
start-warmup_ahead_stuck_example =
    start-warmup_ahead_stuck readers (only "h1") 1 (on_key 2 "controlplane.v1.KeyAllowlistChanged")
      (creation ∷ []) (on_key 3 "controlplane.v1.KeyRotated" ∷ []) ("fast" ∷ []) "h2" refl refl refl
      (omega arith, tt) (omega arith) refl refl
