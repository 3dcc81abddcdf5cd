-- ===== src/Admin/Decisions.antt =====
-- What the handlers of internal/controlplane/admin.go that write are asked, and what they decide. A
-- body is `none` if decodeJSON refuses it.
use inferbus.Base.{
  Bool, List, Option, String, false, if◌then◌else◌, none, not, some, true, ℕ, ℤ, ◌==◌,
}
use inferbus.Base.{string_eq}
use inferbus.Dict.{Dict}
use inferbus.Org as O
use inferbus.ApiKey as K
use inferbus.Alias as A
use inferbus.Admin.{Verdict, org_not_found, store_failed, trim_space, unhealthy, verdict}

pub record NamedRequest : Type 0 where
  pub id : String
  pub name : String

pub record KeyRequest : Type 0 where
  pub org : String
  pub project : String
  pub name : String
  pub allow : List String
  pub rate_limit_rpm : ℤ
  pub monthly_token_budget : ℤ

-- A request, with what its path and its body hold.
pub data Request : Type 0 where
  create_org : Option O.CreateOrg → Request
  rename_org : String → Option String → Request
  upsert_member : String → String → Option String → Request
  remove_member : String → String → Request
  create_project : String → Option NamedRequest → Request
  archive_project : String → String → Request
  create_key : String → String → Option KeyRequest → Request
  rotate_key : String → String → Request
  disable_key : String → Request
  set_allowlist : String → Option (List String) → Request
  set_limits : String → Option (ℤ × ℤ) → Request
  set_alias : String → String → Option (String × Dict String String) → Request
  delete_alias : String → String → Request

-- The answer at once, a status with an error type, or the command for the aggregate.
pub data Decision : Type 0 where
  refused : ℕ → String → Decision
  to_org : String → O.Command → Decision
  to_key : String → K.Command → Decision
  to_alias : String → String → A.Command → Decision

abbrev pub bad_request : Decision
bad_request = refused 400 "invalid_request_error"

abbrev pub not_found : Decision
not_found = refused 404 "not_found_error"

abbrev pub internal_error : Decision
internal_error = refused 500 "internal_error"

-- A check that answers 400.
abbrev pub check : Bool → Decision → Decision
check good d = if good then d else bad_request

abbrev pub with_body : {B : Type 0} → Option B → (B → Decision) → Decision
with_body none k = bad_request
with_body (some body) k = k body

-- `authorizeOrg`
abbrev pub authorize_org : Verdict → Decision → Decision
authorize_org unhealthy d = refused 503 "service_unavailable"
authorize_org store_failed d = internal_error
authorize_org org_not_found d = not_found
authorize_org (verdict true) d = d
authorize_org (verdict false) d = refused 403 "permission_error"

abbrev pub not_blank : String → Bool
not_blank s = not (trim_space s == "")
