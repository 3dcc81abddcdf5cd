-- ===== src/Org/Codec.antt =====
-- The org event codec: internal/controlplane/org/codec.go. Only the inner message is marshalled,
-- under a type URL that names it.
use inferbus.Base.{string_eq, String, if◌then◌else◌, ◌==◌, ◌≡◌}
use inferbus.Wire.{
  Coded, EncodedEvent, Proto, coded, pack, refused, unknown_event_type, unpack, unpack-pack,
  unset_kind,
}
use inferbus.Org.{
  CreateOrg, Event, created, member_removed, member_upserted, project_archived, project_created,
  renamed, unset,
}

-- protobuf for each of the six messages.
pub record Protos : Type 0 where
  pub created_proto : Proto CreateOrg
  pub renamed_proto : Proto String
  pub member_upserted_proto : Proto (String × String)
  pub member_removed_proto : Proto String
  pub project_created_proto : Proto (String × String)
  pub project_archived_proto : Proto String

abbrev wrap_member : String × String → Event
wrap_member (sub, role) = member_upserted sub role

abbrev wrap_project : String × String → Event
wrap_project (id, name) = project_created id name

module _ (p : Protos) where
  unfoldable pub encode : Event → Coded EncodedEvent
  encode (created c) = pack p.created_proto "controlplane.v1.OrgCreated" c
  encode (renamed name) = pack p.renamed_proto "controlplane.v1.OrgRenamed" name
  encode (member_upserted sub role) =
      pack p.member_upserted_proto "controlplane.v1.MemberUpserted" (sub, role)
  encode (member_removed sub) = pack p.member_removed_proto "controlplane.v1.MemberRemoved" sub
  encode (project_created id name) =
      pack p.project_created_proto "controlplane.v1.ProjectCreated" (id, name)
  encode (project_archived id) = pack p.project_archived_proto "controlplane.v1.ProjectArchived" id
  encode unset = refused unset_kind

  unfoldable pub decode : EncodedEvent → Coded Event
  decode enc =
      if enc.type_url == "controlplane.v1.OrgCreated"
      then unpack p.created_proto created enc.payload
      else if enc.type_url == "controlplane.v1.OrgRenamed"
      then unpack p.renamed_proto renamed enc.payload
      else if enc.type_url == "controlplane.v1.MemberUpserted"
      then unpack p.member_upserted_proto wrap_member enc.payload
      else if enc.type_url == "controlplane.v1.MemberRemoved"
      then unpack p.member_removed_proto member_removed enc.payload
      else if enc.type_url == "controlplane.v1.ProjectCreated"
      then unpack p.project_created_proto wrap_project enc.payload
      else if enc.type_url == "controlplane.v1.ProjectArchived"
      then unpack p.project_archived_proto project_archived enc.payload
      else refused unknown_event_type

  -- Whatever `encode` accepts, `decode` reads back as the same event.
  pub org-decode-encode :
      (e : Event) (enc : EncodedEvent) → encode e ≡ coded enc → decode enc ≡ coded e
  unfolding encode decode
  org-decode-encode (created c) enc h =
      let (url, read) = unpack-pack p.created_proto created _ c enc h in rw url read
  org-decode-encode (renamed name) enc h =
      let (url, read) = unpack-pack p.renamed_proto renamed _ name enc h in rw url read
  org-decode-encode (member_upserted sub role) enc h =
      let (url, read) = unpack-pack p.member_upserted_proto wrap_member _ (sub, role) enc h in
      rw url read
  org-decode-encode (member_removed sub) enc h =
      let (url, read) = unpack-pack p.member_removed_proto member_removed _ sub enc h in rw url read
  org-decode-encode (project_created id name) enc h =
      let (url, read) = unpack-pack p.project_created_proto wrap_project _ (id, name) enc h in
      rw url read
  org-decode-encode (project_archived id) enc h =
      let (url, read) = unpack-pack p.project_archived_proto project_archived _ id enc h in
      rw url read
  org-decode-encode unset enc h = cc
