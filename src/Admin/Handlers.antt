-- ===== src/Admin/Handlers.antt =====
-- The handlers of internal/controlplane/admin.go that write, up to the command that they hand to an
-- aggregate. The id and the hash of a new key come from GenerateKey, and are arguments.
pub mod Requests
use inferbus.Base.{
  List, Option, String, if◌then◌else◌, is_some, none, not, some, ℤ, ◌&&◌, ◌==◌, ◌||◌,
}
use inferbus.Base.{string_eq}
use inferbus.Dict.{Dict, lookup}
use inferbus.Text.{codes, text_beq}
use inferbus.Org as O
use inferbus.ApiKey as K
use inferbus.Alias as A
use inferbus.Projector.StreamId.{alias_stream_id, global_scope}
use inferbus.Admin.Decisions.{
  Decision, KeyRequest, NamedRequest, Request, archive_project, authorize_org, bad_request, check,
  create_key, create_org, create_project, delete_alias, disable_key, internal_error, not_blank,
  not_found, refused, remove_member, rename_org, rotate_key, set_alias, set_allowlist, set_limits,
  to_alias, to_key, to_org, upsert_member, with_body,
}
use inferbus.Admin.{Admin, Identity, authenticate, authorize_org_role, trim_space, valid_slug}

module _ (a : Admin) (id : Identity) where
  -- A handler that manages an org: the role, then the request's own checks, then the command.
  abbrev pub manage_org : String → Decision → Decision
  manage_org org d = authorize_org (authorize_org_role a id org "manage_org") d

  abbrev pub send_org : String → O.Command → Decision
  send_org org c = check (a.stream_id_ok (codes org)) (to_org org c)

  -- `createOrg`
  create_org_owned : O.CreateOrg → String → Decision
  create_org_owned body owner =
      if owner == "" && id.bootstrap
      then bad_request
      else send_org body.id (
          O.create (record {
            id = body.id;
            name = body.name;
            owner_sub = if owner == "" then id.sub else owner;
          }))

  create_org_body : O.CreateOrg → Decision
  unfolding create_org_owned
  create_org_body body =
      check (valid_slug body.id)
        (check (not_blank body.name) (create_org_owned body (trim_space body.owner_sub)))

  create_project_body : String → NamedRequest → Decision
  create_project_body org body =
      check (valid_slug body.id)
        (check (not_blank body.name) (send_org org (O.create_project body.id body.name)))

  -- The second half of `createKey`, with the aggregate of the org.
  create_key_in : String → String → KeyRequest → Option O.Org → Decision
  create_key_in key_id hash body none = internal_error
  create_key_in key_id hash body (some org) =
      if O.absent org
      then not_found
      else if not (is_some (lookup body.project org.projects))
      then not_found
      else if not (a.stream_id_ok (codes key_id))
      then internal_error
      else to_key key_id (
          K.create (record {
            id = key_id;
            org = body.org;
            project = body.project;
            name = body.name;
            hash = hash;
            allow = body.allow;
            rate_limit_rpm = body.rate_limit_rpm;
            monthly_token_budget = body.monthly_token_budget;
          }))

  create_key_body : String → String → KeyRequest → Decision
  unfolding create_key_in
  create_key_body key_id hash body = check (valid_slug body.org) (
      check (valid_slug body.project) (
        check (not_blank body.name) (
          authorize_org (authorize_org_role a id body.org "manage_keys") (
            check (a.stream_id_ok (codes body.org))
              (create_key_in key_id hash body (a.load_org body.org))))))

  -- `loadKeyOrg`, the role in the key's org, and the rest of the handler.
  manage_loaded : Option K.ApiKey → Decision → Decision
  manage_loaded none d = internal_error
  manage_loaded (some k) d =
      if K.absent k
      then not_found
      else authorize_org (authorize_org_role a id k.org "manage_keys") d

  manage_key : String → Decision → Decision
  unfolding manage_loaded
  manage_key key_id d =
      if a.stream_id_ok (codes key_id) then manage_loaded (a.load_key key_id) d else internal_error

  -- The scope and the name of `setAlias` and `deleteAlias`, then `authorizeAliasScope`.
  manage_alias : String → String → Decision → Decision
  manage_alias scope name d = check (text_beq (codes scope) global_scope || valid_slug scope) (
      check (valid_slug name) (
        if text_beq (codes scope) global_scope
        then (if id.platform_admin then d else refused 403 "permission_error")
        else authorize_org (authorize_org_role a id scope "manage_keys") d))

  send_alias : String → String → A.Command → Decision
  send_alias scope name c =
      check (a.stream_id_ok (alias_stream_id (codes scope) (codes name))) (to_alias scope name c)

  handle_create_org : Option O.CreateOrg → Decision
  unfolding create_org_body
  handle_create_org body =
      if id.platform_admin then with_body body create_org_body else refused 403 "permission_error"

  handle_rename_org : String → Option String → Decision
  handle_rename_org org body =
      manage_org org
        (with_body body (λ name. check (not_blank name) (send_org org (O.rename name))))

  handle_upsert_member : String → String → Option String → Decision
  handle_upsert_member org sub body = manage_org org (
      check (not (sub == ""))
        (with_body body (λ role. send_org org (O.Command.upsert_member sub role))))

  handle_remove_member : String → String → Decision
  handle_remove_member org sub =
      manage_org org (check (not (sub == "")) (send_org org (O.Command.remove_member sub)))

  handle_create_project : String → Option NamedRequest → Decision
  unfolding create_project_body
  handle_create_project org body = manage_org org (with_body body (create_project_body org))

  handle_archive_project : String → String → Decision
  handle_archive_project org project = manage_org org (send_org org (O.archive_project project))

  handle_create_key : String → String → Option KeyRequest → Decision
  unfolding create_key_body
  handle_create_key key_id hash body = with_body body (create_key_body key_id hash)

  handle_rotate_key : String → String → Decision
  unfolding manage_key
  handle_rotate_key key_id hash = manage_key key_id (to_key key_id (K.rotate hash))

  handle_disable_key : String → Decision
  unfolding manage_key
  handle_disable_key key_id = manage_key key_id (to_key key_id K.disable)

  handle_set_allowlist : String → Option (List String) → Decision
  unfolding manage_key
  handle_set_allowlist key_id body =
      manage_key key_id (with_body body (λ allow. to_key key_id (K.set_allowlist allow)))

  handle_set_limits : String → Option (ℤ × ℤ) → Decision
  unfolding manage_key
  handle_set_limits key_id body =
      manage_key key_id (with_body body (λ limits. to_key key_id (K.set_limits limits.0 limits.1)))

  handle_set_alias : String → String → Option (String × Dict String String) → Decision
  unfolding manage_alias send_alias
  handle_set_alias scope name body =
      manage_alias scope name (with_body body (λ set. send_alias scope name (A.set set.0 set.1)))

  handle_delete_alias : String → String → Decision
  unfolding manage_alias send_alias
  handle_delete_alias scope name = manage_alias scope name (send_alias scope name A.delete_alias)

  -- The route that a request takes, for an authenticated caller.
  unfoldable pub handle_request : Request → Decision
  unfolding handle_create_org handle_rename_org handle_upsert_member handle_remove_member
      handle_create_project handle_archive_project handle_create_key handle_rotate_key
      handle_disable_key handle_set_allowlist handle_set_limits handle_set_alias handle_delete_alias
  handle_request (create_org body) = handle_create_org body
  handle_request (rename_org org body) = handle_rename_org org body
  handle_request (upsert_member org sub body) = handle_upsert_member org sub body
  handle_request (remove_member org sub) = handle_remove_member org sub
  handle_request (create_project org body) = handle_create_project org body
  handle_request (archive_project org project) = handle_archive_project org project
  handle_request (create_key key_id hash body) = handle_create_key key_id hash body
  handle_request (rotate_key key_id hash) = handle_rotate_key key_id hash
  handle_request (disable_key key_id) = handle_disable_key key_id
  handle_request (set_allowlist key_id body) = handle_set_allowlist key_id body
  handle_request (set_limits key_id body) = handle_set_limits key_id body
  handle_request (set_alias scope name body) = handle_set_alias scope name body
  handle_request (delete_alias scope name) = handle_delete_alias scope name

handle_for : Admin → Option Identity → Request → Decision
handle_for a none r = refused 401 "authentication_error"
handle_for a (some id) r = handle_request a id r

-- A request with this Authorization header.
unfoldable pub handle : Admin → String → Request → Decision
unfolding handle_for
handle a authorization r = handle_for a (authenticate a authorization) r
