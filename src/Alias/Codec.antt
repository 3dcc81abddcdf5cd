-- ===== src/Alias/Codec.antt =====
-- The alias event codec: internal/controlplane/alias/codec.go.
use inferbus.Base.{string_eq, String, if◌then◌else◌, ◌==◌, ◌≡◌}
use inferbus.Dict.{Dict}
use inferbus.Wire.{
  Coded, EncodedEvent, Proto, coded, pack, refused, unknown_event_type, unpack, unpack-pack,
  unset_kind,
}
use inferbus.Alias.{Event, alias_deleted, alias_set, unset}

-- protobuf for each of the two messages.
pub record Protos : Type 0 where
  pub set_proto : Proto (String × Dict String String)
  pub deleted_proto : Proto (Unit {0})

abbrev pub wrap_set : String × Dict String String → Event
wrap_set (target, params) = alias_set target params

abbrev pub wrap_deleted : Unit {0} → Event
wrap_deleted u = alias_deleted

module _ (p : Protos) where
  unfoldable pub encode : Event → Coded EncodedEvent
  encode (alias_set target params) = pack p.set_proto "controlplane.v1.AliasSet" (target, params)
  encode alias_deleted = pack p.deleted_proto "controlplane.v1.AliasDeleted" tt
  encode unset = refused unset_kind

  unfoldable pub decode : EncodedEvent → Coded Event
  decode enc =
      if enc.type_url == "controlplane.v1.AliasSet"
      then unpack p.set_proto wrap_set enc.payload
      else if enc.type_url == "controlplane.v1.AliasDeleted"
      then unpack p.deleted_proto wrap_deleted enc.payload
      else refused unknown_event_type

  -- Whatever `encode` accepts, `decode` reads back as the same event.
  pub alias-decode-encode :
      (e : Event) (enc : EncodedEvent) → encode e ≡ coded enc → decode enc ≡ coded e
  unfolding encode decode
  alias-decode-encode (alias_set target params) enc h =
      let (url, read) = unpack-pack p.set_proto wrap_set _ (target, params) enc h in rw url read
  alias-decode-encode alias_deleted enc h =
      let (url, read) = unpack-pack p.deleted_proto wrap_deleted _ tt enc h in rw url read
  alias-decode-encode unset enc h = cc
