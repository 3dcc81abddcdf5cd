-- ===== src/ApiKey/Codec.antt =====
-- The apikey event codec: internal/controlplane/apikey/codec.go.
use inferbus.Base.{string_eq, List, String, if◌then◌else◌, ℤ, ◌==◌, ◌≡◌}
use inferbus.Wire.{
  Coded, EncodedEvent, Proto, coded, pack, refused, unknown_event_type, unpack, unpack-pack,
  unset_kind,
}
use inferbus.ApiKey.{
  CreateKey, Event, allowlist_changed, created, key_disabled, limits_changed, rotated, unset,
}

-- protobuf for each of the five messages.
pub record Protos : Type 0 where
  pub created_proto : Proto CreateKey
  pub rotated_proto : Proto (String × String)
  pub disabled_proto : Proto String
  pub allowlist_changed_proto : Proto (List String)
  pub limits_changed_proto : Proto (ℤ × ℤ)

abbrev pub wrap_rotated : String × String → Event
wrap_rotated (new_hash, previous) = rotated new_hash previous

abbrev pub wrap_limits : ℤ × ℤ → Event
wrap_limits (rpm, budget) = limits_changed rpm budget

module _ (p : Protos) where
  unfoldable pub encode : Event → Coded EncodedEvent
  encode (created c) = pack p.created_proto "controlplane.v1.KeyCreated" c
  encode (rotated new_hash previous) =
      pack p.rotated_proto "controlplane.v1.KeyRotated" (new_hash, previous)
  encode (key_disabled hash) = pack p.disabled_proto "controlplane.v1.KeyDisabled" hash
  encode (allowlist_changed allow) =
      pack p.allowlist_changed_proto "controlplane.v1.KeyAllowlistChanged" allow
  encode (limits_changed rpm budget) =
      pack p.limits_changed_proto "controlplane.v1.KeyLimitsChanged" (rpm, budget)
  encode unset = refused unset_kind

  unfoldable pub decode : EncodedEvent → Coded Event
  decode enc =
      if enc.type_url == "controlplane.v1.KeyCreated"
      then unpack p.created_proto created enc.payload
      else if enc.type_url == "controlplane.v1.KeyRotated"
      then unpack p.rotated_proto wrap_rotated enc.payload
      else if enc.type_url == "controlplane.v1.KeyDisabled"
      then unpack p.disabled_proto key_disabled enc.payload
      else if enc.type_url == "controlplane.v1.KeyAllowlistChanged"
      then unpack p.allowlist_changed_proto allowlist_changed enc.payload
      else if enc.type_url == "controlplane.v1.KeyLimitsChanged"
      then unpack p.limits_changed_proto wrap_limits enc.payload
      else refused unknown_event_type

  -- Whatever `encode` accepts, `decode` reads back as the same event.
  pub apikey-decode-encode :
      (e : Event) (enc : EncodedEvent) → encode e ≡ coded enc → decode enc ≡ coded e
  unfolding encode decode
  apikey-decode-encode (created c) enc h =
      let (url, read) = unpack-pack p.created_proto created _ c enc h in rw url read
  apikey-decode-encode (rotated new_hash previous) enc h =
      let (url, read) = unpack-pack p.rotated_proto wrap_rotated _ (new_hash, previous) enc h in
      rw url read
  apikey-decode-encode (key_disabled hash) enc h =
      let (url, read) = unpack-pack p.disabled_proto key_disabled _ hash enc h in rw url read
  apikey-decode-encode (allowlist_changed allow) enc h =
      let (url, read) = unpack-pack p.allowlist_changed_proto allowlist_changed _ allow enc h in
      rw url read
  apikey-decode-encode (limits_changed rpm budget) enc h =
      let (url, read) = unpack-pack p.limits_changed_proto wrap_limits _ (rpm, budget) enc h in
      rw url read
  apikey-decode-encode unset enc h = cc
