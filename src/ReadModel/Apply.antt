-- ===== src/ReadModel/Apply.antt =====
-- The SQL projector: sqlProjector of internal/controlplane/readmodel.go, over an in-memory read
-- store. Its loop is the one of `Projector`. A write of the store can fail like a bucket operation.
-- `Loads` is what `aggregate.Runtime.Load` answers while an envelope is applied; `none` is an error.
use inferbus.Base.{List, Option, String, false, if◌then◌else◌, none, some, true, ◌==◌}
use inferbus.Base.{string_eq}
use inferbus.Dict.{lookup}
use inferbus.Text.{Text, codes}
use inferbus.Wire.{Coded, coded, refused}
use inferbus.Org.{Event, Org, Project}
use inferbus.Org as O
use inferbus.Org.Codec as OrgCodec
use inferbus.ApiKey.{ApiKey}
use inferbus.Alias as A
use inferbus.Alias.Codec as AliasCodec
use inferbus.Projector.{
  Applied, Envelope, Fault, Projector, apply, bad_stream_id, fine, later_faults, load_failed, lost,
  next_fault, no_project, store_failed, unacked, undecodable,
}
use inferbus.Projector.StreamId.{Split, bad, scope_name, split_alias_stream_id}
use inferbus.ReadModel.{
  KeyRow, MemReadStore, ProjectRow, delete_alias, remove_member, upsert_alias, upsert_key,
  upsert_member, upsert_org, upsert_project,
}

pub record Loads : Type 0 where
  pub load_org : Envelope → Option Org
  pub load_key : Envelope → Option ApiKey

-- One call of the store: `t` is the store after it, if it has its effect.
abbrev pub write : MemReadStore → MemReadStore → List Fault → Applied MemReadStore
write s t faults = elim (next_fault faults) [
  | fine ↦ (t, later_faults faults, none)
  | lost ↦ (s, later_faults faults, some store_failed)
  | unacked ↦ (t, later_faults faults, some store_failed)
]

-- A second call, which is made only if the first returned no error.
abbrev pub and_then : Applied MemReadStore → (MemReadStore → MemReadStore) → Applied MemReadStore
and_then (s, faults, none) op = write s (op s) faults
and_then (s, faults, some x) op = (s, faults, some x)

abbrev pub project_row : String → Project → ProjectRow
project_row org p = record { id = p.id; org = org; name = p.name; archived = p.archived }

archived_row : String → Option Project → MemReadStore → List Fault → Applied MemReadStore
archived_row org none s faults = (s, faults, some no_project)
archived_row org (some p) s faults = write s (upsert_project (project_row org p) s) faults

archive_row : String → String → Option Org → MemReadStore → List Fault → Applied MemReadStore
unfolding archived_row
archive_row org id none s faults = (s, faults, some load_failed)
archive_row org id (some state) s faults = archived_row org (lookup id state.projects) s faults

-- The switch of `applyOrgEvent`.
unfoldable pub apply_org :
    String → O.Event → Option Org → MemReadStore → List Fault → Applied MemReadStore
unfolding archive_row
apply_org org (O.created c) load s faults =
    and_then (write s (upsert_org (record { id = org; name = c.name }) s) faults)
      (upsert_member org c.owner_sub "owner")
apply_org org (O.renamed name) load s faults =
    write s (upsert_org (record { id = org; name = name }) s) faults
apply_org org (O.member_upserted sub role) load s faults =
    write s (upsert_member org sub role s) faults
apply_org org (O.member_removed sub) load s faults = write s (remove_member org sub s) faults
apply_org org (O.project_created id name) load s faults =
    write s (upsert_project (record { id = id; org = org; name = name; archived = false }) s) faults
apply_org org (O.project_archived id) load s faults = archive_row org id load s faults
apply_org org O.unset load s faults = (s, faults, none)

apply_org_event :
    Coded O.Event → String → Option Org → MemReadStore → List Fault → Applied MemReadStore
apply_org_event (refused x) org load s faults = (s, faults, some undecodable)
apply_org_event (coded e) org load s faults = apply_org org e load s faults

abbrev pub key_row : String → ApiKey → KeyRow
key_row id k = record {
  id = id;
  org = k.org;
  project = k.project;
  name = k.name;
  allow = k.allow;
  rate_limit_rpm = k.rate_limit_rpm;
  monthly_token_budget = k.monthly_token_budget;
  disabled = k.disabled;
}

-- `applyApiKeyEvent`, which does not decode the event.
unfoldable pub apply_api_key_event :
    String → Option ApiKey → MemReadStore → List Fault → Applied MemReadStore
apply_api_key_event id none s faults = (s, faults, some load_failed)
apply_api_key_event id (some k) s faults = write s (upsert_key (key_row id k) s) faults

apply_alias : Text → Text → Coded A.Event → MemReadStore → List Fault → Applied MemReadStore
apply_alias scope name (refused x) s faults = (s, faults, some undecodable)
apply_alias scope name (coded (A.alias_set target params)) s faults =
    write s
      (upsert_alias (record { scope = scope; name = name; target = target; params = params }) s)
      faults
apply_alias scope name (coded A.alias_deleted) s faults = write s (delete_alias scope name s) faults
apply_alias scope name (coded A.unset) s faults = (s, faults, none)

apply_alias_event : Split → Coded A.Event → MemReadStore → List Fault → Applied MemReadStore
unfolding apply_alias
apply_alias_event (bad x) e s faults = (s, faults, some bad_stream_id)
apply_alias_event (scope_name scope name) e s faults = apply_alias scope name e s faults

module _ (org_protos : OrgCodec.Protos) (alias_protos : AliasCodec.Protos) (loads : Loads) where
  -- The switch of `apply` on the stream type.
  unfoldable pub sql_apply_one : MemReadStore → List Fault → Envelope → Applied MemReadStore
  unfolding apply_org_event apply_alias_event
  sql_apply_one s faults e =
      if e.stream_type == "org"
      then apply_org_event (OrgCodec.decode org_protos e.event) e.stream_id (loads.load_org e) s
          faults
      else if e.stream_type == "apikey"
      then apply_api_key_event e.stream_id (loads.load_key e) s faults
      else if e.stream_type == "alias"
      then apply_alias_event (split_alias_stream_id (codes e.stream_id))
          (AliasCodec.decode alias_protos e.event) s faults
      else (s, faults, none)

  -- `apply`; an event of another stream type only moves the position.
  unfoldable pub sql_apply : Projector MemReadStore → List Envelope → Projector MemReadStore
  sql_apply = apply (λ t. true) sql_apply_one
