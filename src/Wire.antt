-- ===== src/Wire.antt =====
-- What the event codecs share: es-lite's encoded event, and protobuf's Marshal and Unmarshal for one
-- message type, which are not the program's code and enter as a record with their documented law.
pub mod Slug
pub mod Types
use inferbus.Base.{List, Option, Option-cases, String, arith, inl, inr, none, some, ℕ, ◌≡◌}

pub record EncodedEvent : Type 0 where
  pub type_url : String
  pub schema_version : ℕ
  pub payload : List ℕ

-- `none` is an error. What was marshalled unmarshals to the same message.
pub record Proto (M : Type 0) : Type 0 where
  pub marshal : M → Option (List ℕ)
  pub unmarshal : List ℕ → Option M
  pub round_trip : (m : M) (b : List ℕ) → marshal m ≡ some b → unmarshal b ≡ some m

pub data CodecError : Type 0 where
  unset_kind marshal_failed unmarshal_failed unknown_event_type : CodecError

pub data Coded {ℓ} (A : Type ℓ) : Type ℓ where
  coded : A → Coded A
  refused : CodecError → Coded A

-- `EncodedEvent{TypeURL: url, SchemaVersion: 1, Payload: b}`, or the marshalling error.
abbrev pub pack : {M : Type 0} → Proto M → String → M → Coded EncodedEvent
pack p url m = elim (p.marshal m) [
  | none ↦ refused marshal_failed
  | some b ↦ coded (record { type_url = url; schema_version = 1; payload = b })
]

-- The payload read as a message and wrapped as an event, or the unmarshalling error.
abbrev pub unpack : {M E : Type 0} → Proto M → (M → E) → List ℕ → Coded E
unpack p wrap b = elim (p.unmarshal b) [ none ↦ refused unmarshal_failed | some m ↦ coded (wrap m) ]

pub unpack-pack :
    {M E : Type 0} (p : Proto M) (wrap : M → E) (url : String) (m : M) (enc : EncodedEvent)
    → pack p url m ≡ coded enc
    → (enc.type_url ≡ url) × (unpack p wrap enc.payload ≡ coded (wrap m))
unpack-pack p wrap url m enc h = elim (Option-cases (p.marshal m)) [
  | inl e ↦ ground arith
  | inr (b, e) ↦ ground (arith, p.round_trip m b e)
]
