-- ===== src/Tests/Admins.antt =====
-- internal/controlplane/admin.go at work: an owner and a viewer of one org.
use inferbus.Base.{String, [], arith, false, none, pos, refl, some, true, ◌∷◌, ◌≡◌}
use inferbus.Base.{string_eq}
use inferbus.Dict.{Dict, lookup}
use inferbus.Admin.{Admin, Identity, authorize, authorize_org_role, verdict}
use inferbus.Admin.Decisions.{rename_org}
use inferbus.Admin.Handlers.{handle}
use inferbus.Admin.Handlers.Requests.{IsSafe, handle-IsSafe}
use inferbus.Admin.Current.{authorize_org_role-current}
use inferbus.Org as O
use inferbus.ApiKey as K
use inferbus.Org.{Command, Org}
use inferbus.ReadModel.{KeyRow, MemReadStore}
use inferbus.ReadModel.Orgs.{RowsShow}
use inferbus.Admin.Answers.{conflict, finish_org, handled}
use inferbus.Admin.Answers.Written.{HandlesKey, HandlesOrg, ShowsOrg, finish_org-ShowsOrg}
use inferbus.ApiKey.{ApiKey, rotate}
use inferbus.Admin.Sources.{Sources, bucket_not_found}
use inferbus.Admin.Reads.{list_org_keys, read}
use inferbus.Admin.Reads.Shown.{IsSafeRead}
use inferbus.Admin.Reads.Allowed.{read-IsSafe}

abbrev acme_members : Dict String String
acme_members = ("bob", "viewer") ∷ ("ann", "owner") ∷ []

abbrev acme : Org
acme = record { id = "acme"; name = "Acme"; members = acme_members; projects = [] }

abbrev acme_rows : MemReadStore
acme_rows = record {
  orgs = ("acme", record { id = "acme"; name = "Acme" }) ∷ [];
  members = ("acme", acme_members) ∷ [];
  projects = [];
  keys = [];
  aliases = [];
}

abbrev admin : Admin
admin = record {
  bootstrap_token = "";
  platform_admins = "root" ∷ [];
  verify = λ token. some token;
  healthy = some true;
  rows = some acme_rows;
  load_org = λ id. some acme;
  load_key = λ id. none;
  stream_id_ok = λ id. true;
}

handle-IsSafe_example :
    IsSafe admin "Bearer ann" (handle admin "Bearer ann" (rename_org "acme" (some "Acme Inc")))
handle-IsSafe_example = handle-IsSafe admin "Bearer ann" (rename_org "acme" (some "Acme Inc"))

abbrev bob : Identity
bob = record { sub = "bob"; platform_admin = false; bootstrap = false }

acme_shown : RowsShow "acme" acme_rows acme acme_rows
unfolding lookup
acme_shown = record {
  org_shown = λ there. refl;
  members_shown = λ sub. refl;
  projects_shown = λ project. refl;
  ids_match = λ project p found. absurd (ground arith);
  others_kept = λ other apart. (refl, refl, refl);
}

authorize_org_role-current_example :
    authorize_org_role admin bob "acme" "manage_keys"
    ≡ verdict (authorize bob "viewer" "manage_keys")
unfolding lookup
authorize_org_role-current_example =
    authorize_org_role-current admin bob "manage_keys" "acme" acme acme_rows acme_rows acme_shown
      refl refl refl

abbrev no_sources : Sources
no_sources = record { usage = none; models = bucket_not_found }

read-IsSafe_example :
    IsSafeRead admin no_sources "Bearer bob"
      (list_org_keys "acme")
      (read admin no_sources "Bearer bob" (list_org_keys "acme"))
read-IsSafe_example = read-IsSafe admin no_sources "Bearer bob" (list_org_keys "acme")

abbrev key_row : String → String → KeyRow
key_row id in_org = record {
  id = id;
  org = in_org;
  project = "p";
  name = id;
  allow = [];
  rate_limit_rpm = pos 0;
  monthly_token_budget = pos 0;
  disabled = false;
}

abbrev three_keys : MemReadStore
three_keys = record acme_rows {
  keys = ("b", key_row "b" "acme") ∷ ("x", key_row "x" "other") ∷ ("a", key_row "a" "acme") ∷ [];
}

abbrev bob_admin : O.Command
bob_admin = O.Command.upsert_member "bob" "admin"

bob_upserted : HandlesOrg acme bob_admin (handled (O.handle acme bob_admin))
unfolding O.handle O.decide O.valid_roles lookup
bob_upserted = refl

-- Bob becomes an admin, after a concurrent write.
finish_org-ShowsOrg_example :
    ShowsOrg bob_admin (finish_org bob_admin conflict (handled (O.handle acme bob_admin)))
finish_org-ShowsOrg_example =
    finish_org-ShowsOrg acme acme bob_admin conflict (handled (O.handle acme bob_admin)) tt
      bob_upserted

abbrev ci_key : ApiKey
ci_key = record {
  id = "k1";
  org = "acme";
  project = "p1";
  name = "ci";
  hash = "h1";
  allow = [];
  rate_limit_rpm = pos 0;
  monthly_token_budget = pos 0;
  disabled = false;
}

key_rotated : HandlesKey ci_key (rotate "h2") (handled (K.handle ci_key (rotate "h2")))
unfolding K.handle K.decide
key_rotated = refl
