-- ===== src/Admin/Reads.antt =====
-- The handlers of internal/controlplane/admin.go that read, and their bodies; and the resync.
pub mod Shown
pub mod Allowed
use inferbus.Base.{
  Bool, List, Option, String, [], false, if◌then◌else◌, is_some, ltb, map, negsuc, none, pos, some,
  true, ℕ, ℤ, ◌%◌, ◌-◌, ◌^◌, ◌||◌, ◌∷◌,
}
use inferbus.Base.{string_eq}
use inferbus.Text.{codes, text_beq}
use inferbus.Projector.StreamId.{global_scope}
use inferbus.ReadModel.{
  AliasRow, KeyRow, MemReadStore, MemberRow, OrgRow, ProjectRow, get_org, list_aliases, list_keys,
  list_orgs,
}
use inferbus.Wire.Types.{WorkerAd}
use inferbus.Admin.Sources.{Sources, UsageBucket, ads, fetch_workers, org_usage, valid_usage_window}
use inferbus.Admin.{
  Admin, Identity, Verdict, authenticate, authorize_org_role, org_not_found, store_failed,
  unhealthy, valid_slug, verdict,
}

-- `keyResponse`; `key` is the plaintext, which only the answer to a creation or a rotation has.
pub record KeyResponse : Type 0 where
  pub id : String
  pub org : String
  pub project : String
  pub name : String
  pub allow : List String
  pub rate_limit_rpm : ℤ
  pub monthly_token_budget : ℤ
  pub disabled : Bool
  pub key : String

pub record ProjectResponse : Type 0 where
  pub id : String
  pub name : String
  pub archived : Bool

pub record OrgResponse : Type 0 where
  pub id : String
  pub name : String
  pub members : List MemberRow
  pub projects : List ProjectResponse

-- `int32(n)`
abbrev residue32 : ℤ → ℕ
residue32 (pos n) = n % 2 ^ 32
residue32 (negsuc n) = 2 ^ 32 - 1 - n % 2 ^ 32

unfoldable pub to_int32 : ℤ → ℤ
to_int32 z = let r = residue32 z in if ltb r (2 ^ 31) then pos r else negsuc (2 ^ 32 - 1 - r)

unfoldable pub key_response_from_row : KeyRow → KeyResponse
key_response_from_row row = record {
  id = row.id;
  org = row.org;
  project = row.project;
  name = row.name;
  allow = row.allow;
  rate_limit_rpm = to_int32 row.rate_limit_rpm;
  monthly_token_budget = row.monthly_token_budget;
  disabled = row.disabled;
  key = "";
}

pub project_responses : List ProjectRow → List ProjectResponse
project_responses [] = []
project_responses (row ∷ rows) =
    record { id = row.id; name = row.name; archived = row.archived } ∷ project_responses rows

unfoldable pub org_detail_from_rows : OrgRow → List MemberRow → List ProjectRow → OrgResponse
unfolding project_responses
org_detail_from_rows row members projects = record {
  id = row.id;
  name = row.name;
  members = members;
  projects = project_responses projects;
}

pub data Read : Type 0 where
  list_all_orgs : Read
  get_one_org list_org_keys list_scope_aliases : String → Read
  -- An org and a window.
  usage_of : String → String → Read
  list_all_workers : Read

-- A status with an error type, or a 200 with its body. A row of orgs or aliases is its response.
pub data Answer : Type 0 where
  refused : ℕ → String → Answer
  orgs : List OrgRow → Answer
  org : OrgResponse → Answer
  keys : List KeyResponse → Answer
  aliases : List AliasRow → Answer
  usage_body : String → String → List UsageBucket → Answer
  workers : List WorkerAd → Answer

abbrev internal_error : Answer
internal_error = refused 500 "internal_error"

abbrev pub authorize_read : Verdict → Answer → Answer
authorize_read unhealthy d = refused 503 "service_unavailable"
authorize_read store_failed d = internal_error
authorize_read org_not_found d = refused 404 "not_found_error"
authorize_read (verdict true) d = d
authorize_read (verdict false) d = refused 403 "permission_error"

-- The rows of the store, which may fail.
abbrev from_store : Option MemReadStore → (MemReadStore → Answer) → Answer
from_store none k = internal_error
from_store (some s) k = k s

detail : Option (OrgRow × List MemberRow × List ProjectRow) → Answer
detail none = refused 404 "not_found_error"
detail (some (row, members, projects)) = org (org_detail_from_rows row members projects)

abbrev queried : String → String → Option (List UsageBucket) → Answer
queried o window none = internal_error
queried o window (some buckets) = usage_body o window buckets

abbrev reported : String → String → Option (String → String → Option (List UsageBucket)) → Answer
reported o window none = refused 501 "not_configured"
reported o window (some query) = queried o window (org_usage query o window)

abbrev fleet : Option (List WorkerAd) → Answer
fleet none = internal_error
fleet (some ads) = workers ads

module _ (a : Admin) (src : Sources) (id : Identity) where
  read_orgs : Answer
  read_orgs =
      if id.platform_admin
      then from_store a.rows (λ s. orgs (list_orgs s))
      else refused 403 "permission_error"

  read_org : String → Answer
  unfolding detail
  read_org o =
      authorize_read (authorize_org_role a id o "read")
        (from_store a.rows (λ s. detail (get_org o s)))

  read_keys : String → Answer
  read_keys o =
      if valid_slug o
      then authorize_read (authorize_org_role a id o "read")
          (from_store a.rows (λ s. keys (map key_response_from_row (list_keys o s))))
      else refused 400 "invalid_request_error"

  -- Anyone who is authenticated may list the global aliases.
  read_aliases : String → Answer
  read_aliases scope =
      let listing = from_store a.rows (λ s. aliases (list_aliases (codes scope) s)) in
      let is_global = text_beq (codes scope) global_scope in
      if is_global || valid_slug scope
      then (if is_global
          then listing
          else authorize_read (authorize_org_role a id scope "read") listing)
      else refused 400 "invalid_request_error"

  -- `getUsage`: the role is checked before the window.
  get_usage : String → String → Answer
  get_usage o window =
      if valid_slug o
      then authorize_read (authorize_org_role a id o "read") (
          if valid_usage_window window
          then reported o window src.usage
          else refused 400 "invalid_request_error")
      else refused 400 "invalid_request_error"

  -- `listWorkers`
  list_workers : Answer
  list_workers =
      if id.platform_admin then fleet (fetch_workers src.models) else refused 403 "permission_error"

  unfoldable pub read_request : Read → Answer
  unfolding read_orgs read_org read_keys read_aliases get_usage list_workers
  read_request list_all_orgs = read_orgs
  read_request (get_one_org o) = read_org o
  read_request (list_org_keys o) = read_keys o
  read_request (list_scope_aliases scope) = read_aliases scope
  read_request (usage_of o window) = get_usage o window
  read_request list_all_workers = list_workers

read_for : Admin → Sources → Option Identity → Read → Answer
read_for a src none r = refused 401 "authentication_error"
read_for a src (some id) r = read_request a src id r

-- A request to read with this Authorization header.
unfoldable pub read : Admin → Sources → String → Read → Answer
unfolding read_for
read a src authorization r = read_for a src (authenticate a authorization) r

-- `resyncProjections`: the status, given what the resync returns.
resync_for : Option Identity → Option String → ℕ
resync_for none resync_err = 401
resync_for (some id) resync_err =
    if id.platform_admin then (if is_some resync_err then 500 else 202) else 403

unfoldable pub resync_projections : Admin → String → Option String → ℕ
unfolding resync_for
resync_projections a authorization resync_err = resync_for (authenticate a authorization) resync_err
