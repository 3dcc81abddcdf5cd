-- ===== src/Admin/Handlers/Requests.antt =====
-- Every request of internal/controlplane/admin.go that reaches an aggregate is one that its caller
-- may make.
use inferbus.Base.{
  Bool, Option, Option-cases, String, false, if◌then◌else◌, inl, inr, is_some, none, not, refl,
  some, true, ◌&&◌, ◌==◌, ◌||◌, ◌≡◌, ◌⊎◌,
}
use inferbus.Base.{string_eq}
use inferbus.Dict.{lookup}
use inferbus.Text.{codes, text_beq}
use inferbus.Org as O
use inferbus.ApiKey as K
use inferbus.Alias as A
use inferbus.Projector.StreamId.{alias_stream_id, global_scope}
use inferbus.Admin.{Admin, Identity, authenticate, authorize_org_role, trim_space, valid_slug}
use inferbus.Admin.Decisions.{
  Decision, KeyRequest, NamedRequest, Request, archive_project, authorize_org, bad_request,
  create_key, create_org, create_project, delete_alias, disable_key, internal_error, not_blank,
  not_found, refused, remove_member, rename_org, rotate_key, set_alias, set_allowlist, set_limits,
  to_alias, to_key, to_org, upsert_member, with_body,
}
use inferbus.Admin.Handlers.{
  create_key_body, create_key_in, create_org_body, create_org_owned, create_project_body, handle,
  handle_archive_project, handle_create_key, handle_create_org, handle_create_project,
  handle_delete_alias, handle_disable_key, handle_for, handle_remove_member, handle_rename_org,
  handle_request, handle_rotate_key, handle_set_alias, handle_set_allowlist, handle_set_limits,
  handle_upsert_member, manage_alias, manage_key, manage_loaded, manage_org, send_alias, send_org,
}
use inferbus.Admin.Authorized.{
  AliasAllowed, InKeyOrg, IsAllowed, MayManageKeys, MayManageOrg, OrgAllowed,
  authorize_org-IsAllowed, check-IsAllowed, manages_keys, manages_org, with_body-IsAllowed,
}

module _ (a : Admin) (id : Identity) where
  if-IsAllowed :
      (b : Bool) (d e : Decision)
      → (b ≡ true → IsAllowed a id d)
      → (b ≡ false → IsAllowed a id e)
      → IsAllowed a id (if b then d else e)
  if-IsAllowed true d e h k = h refl
  if-IsAllowed false d e h k = k refl

  -- A handler that manages an org.
  org_request :
      (org : String) (d : Decision)
      → (MayManageOrg a id org → IsAllowed a id d)
      → IsAllowed a id (manage_org a id org d)
  org_request org d h =
      authorize_org-IsAllowed a id (authorize_org_role a id org "manage_org") d
        (λ v. h (manages_org a id org v))

  send_org-IsAllowed :
      (org : String) (c : O.Command) → OrgAllowed a id org c → IsAllowed a id (send_org a id org c)
  send_org-IsAllowed org c h = check-IsAllowed a id (a.stream_id_ok (codes org)) (to_org org c) h

  create_org-IsAllowed :
      (body : O.CreateOrg) → id.platform_admin ≡ true → IsAllowed a id (create_org_body a id body)
  unfolding create_org_body create_org_owned
  create_org-IsAllowed body p =
      let owner = trim_space body.owner_sub in
      let c : O.CreateOrg = record {
        id = body.id;
        name = body.name;
        owner_sub = if owner == "" then id.sub else owner;
      } in
      check-IsAllowed a id (valid_slug body.id) _ (
        check-IsAllowed a id (not_blank body.name) _ (
          if-IsAllowed (owner == "" && id.bootstrap) bad_request
            (send_org a id body.id (O.create c)) (λ anonymous. tt)
            (λ known. send_org-IsAllowed body.id (O.create c) p)))

  create_project-IsAllowed :
      (org : String) (body : NamedRequest)
      → MayManageOrg a id org
      → IsAllowed a id (create_project_body a id org body)
  unfolding create_project_body
  create_project-IsAllowed org body may = check-IsAllowed a id (valid_slug body.id) _ (
      check-IsAllowed a id (not_blank body.name) _
        (send_org-IsAllowed org (O.create_project body.id body.name) may))

  create_key_in-IsAllowed :
      (key_id hash : String) (body : KeyRequest) (o : Option O.Org)
      → MayManageKeys a id body.org
      → IsAllowed a id (create_key_in a id key_id hash body o)
  unfolding create_key_in
  create_key_in-IsAllowed key_id hash body none may = tt
  create_key_in-IsAllowed key_id hash body (some org) may =
      if-IsAllowed (O.absent org) not_found _ (λ gone. tt)
        (λ there.
          if-IsAllowed (not (is_some (lookup body.project org.projects))) not_found _ (λ gone. tt)
            (λ found.
              if-IsAllowed (not (a.stream_id_ok (codes key_id))) internal_error _ (λ odd. tt)
                (λ good. may)))

  create_key-IsAllowed :
      (key_id hash : String) (body : KeyRequest)
      → IsAllowed a id (create_key_body a id key_id hash body)
  unfolding create_key_body
  create_key-IsAllowed key_id hash body = check-IsAllowed a id (valid_slug body.org) _ (
      check-IsAllowed a id (valid_slug body.project) _ (
        check-IsAllowed a id (not_blank body.name) _ (
          authorize_org-IsAllowed a id (authorize_org_role a id body.org "manage_keys") _ (λ v.
            check-IsAllowed a id (a.stream_id_ok (codes body.org)) _ (
              create_key_in-IsAllowed key_id hash body (a.load_org body.org)
                (manages_keys a id body.org v))))))

  -- A handler that manages a key.
  loaded-IsAllowed :
      (key : String) (o : Option K.ApiKey) (d : Decision)
      → a.load_key key ≡ o
      → (InKeyOrg a id key → IsAllowed a id d)
      → IsAllowed a id (manage_loaded a id o d)
  unfolding manage_loaded
  loaded-IsAllowed key none d e h = tt
  loaded-IsAllowed key (some k) d e h =
      if-IsAllowed (K.absent k) not_found _ (λ gone. tt)
        (λ there.
          authorize_org-IsAllowed a id (authorize_org_role a id k.org "manage_keys") d
            (λ v. h (k, e, manages_keys a id k.org v)))

  key_request :
      (key : String) (d : Decision)
      → (InKeyOrg a id key → IsAllowed a id d)
      → IsAllowed a id (manage_key a id key d)
  unfolding manage_key
  key_request key d h =
      if-IsAllowed (a.stream_id_ok (codes key)) (manage_loaded a id (a.load_key key) d)
        internal_error (λ good. loaded-IsAllowed key (a.load_key key) d refl h) (λ odd. tt)

  alias_request :
      (scope name : String) (d : Decision)
      → (AliasAllowed a id scope → IsAllowed a id d)
      → IsAllowed a id (manage_alias a id scope name d)
  unfolding manage_alias
  alias_request scope name d h =
      let global = text_beq (codes scope) global_scope in
      check-IsAllowed a id (global || valid_slug scope) _ (
        check-IsAllowed a id (valid_slug name) _ (
          if-IsAllowed global (if id.platform_admin then d else refused 403 "permission_error")
            (authorize_org (authorize_org_role a id scope "manage_keys") d)
            (λ g.
              if-IsAllowed id.platform_admin d (refused 403 "permission_error")
                (λ p. h ((λ _. p), inl p)) (λ plain. tt))
            (λ own.
              authorize_org-IsAllowed a id (authorize_org_role a id scope "manage_keys") d
                (λ v. h ((λ g. absurd (cc (own, g))), manages_keys a id scope v)))))

  send_alias-IsAllowed :
      (scope name : String) (c : A.Command)
      → AliasAllowed a id scope
      → IsAllowed a id (send_alias a id scope name c)
  unfolding send_alias
  send_alias-IsAllowed scope name c h =
      check-IsAllowed a id (a.stream_id_ok (alias_stream_id (codes scope) (codes name)))
        (to_alias scope name c) h

  handle_request-IsAllowed : (r : Request) → IsAllowed a id (handle_request a id r)
  unfolding handle_request handle_create_org handle_rename_org handle_upsert_member
      handle_remove_member handle_create_project handle_archive_project handle_create_key
      handle_rotate_key handle_disable_key handle_set_allowlist handle_set_limits handle_set_alias
      handle_delete_alias
  handle_request-IsAllowed (create_org body) =
      if-IsAllowed id.platform_admin (with_body body (create_org_body a id))
        (refused 403 "permission_error")
        (λ p. with_body-IsAllowed a id body (create_org_body a id) (λ b. create_org-IsAllowed b p))
        (λ plain. tt)
  handle_request-IsAllowed (rename_org org body) = org_request org _ (λ may.
      with_body-IsAllowed a id body _ (λ name.
        check-IsAllowed a id (not_blank name) _ (send_org-IsAllowed org (O.rename name) may)))
  handle_request-IsAllowed (upsert_member org sub body) = org_request org _ (λ may.
      check-IsAllowed a id (not (sub == "")) _ (
        with_body-IsAllowed a id body _
          (λ role. send_org-IsAllowed org (O.Command.upsert_member sub role) may)))
  handle_request-IsAllowed (remove_member org sub) = org_request org _ (λ may.
      check-IsAllowed a id (not (sub == "")) _
        (send_org-IsAllowed org (O.Command.remove_member sub) may))
  handle_request-IsAllowed (create_project org body) = org_request org _ (λ may.
      with_body-IsAllowed a id body (create_project_body a id org)
        (λ b. create_project-IsAllowed org b may))
  handle_request-IsAllowed (archive_project org project) =
      org_request org _ (λ may. send_org-IsAllowed org (O.archive_project project) may)
  handle_request-IsAllowed (create_key key_id hash body) =
      with_body-IsAllowed a id body (create_key_body a id key_id hash)
        (λ b. create_key-IsAllowed key_id hash b)
  handle_request-IsAllowed (rotate_key key_id hash) =
      key_request key_id (to_key key_id (K.rotate hash)) (λ may. may)
  handle_request-IsAllowed (disable_key key_id) =
      key_request key_id (to_key key_id K.disable) (λ may. may)
  handle_request-IsAllowed (set_allowlist key_id body) =
      key_request key_id _ (λ may. with_body-IsAllowed a id body _ (λ allow. may))
  handle_request-IsAllowed (set_limits key_id body) =
      key_request key_id _ (λ may. with_body-IsAllowed a id body _ (λ limits. may))
  handle_request-IsAllowed (set_alias scope name body) = alias_request scope name _ (λ may.
      with_body-IsAllowed a id body _
        (λ set. send_alias-IsAllowed scope name (A.set set.0 set.1) may))
  handle_request-IsAllowed (delete_alias scope name) =
      alias_request scope name _ (λ may. send_alias-IsAllowed scope name A.delete_alias may)

abbrev is_refused : Decision → Bool
is_refused (refused status kind) = true
is_refused (to_org org c) = false
is_refused (to_key key c) = false
is_refused (to_alias scope name c) = false

-- The answer is a refusal, or the caller is known and may do what is sent.
abbrev pub IsSafe : Admin → String → Decision → Type 0
IsSafe a authorization d =
    (is_refused d ≡ true)
    ⊎ ((id : Identity) × (authenticate a authorization ≡ some id) × IsAllowed a id d)

-- Whatever the request, a command reaches an aggregate only for an authenticated caller who may give
-- it: to create an org or change a global alias, a platform admin; to change an org, a platform
-- admin or an owner of it; to create or change a key or an alias of an org, a platform admin, an
-- owner or an admin of that org, for a key the org that the key is in. Who is an owner or an admin is
-- read from the read model, and only while the projections are healthy.
pub handle-IsSafe :
    (a : Admin) (authorization : String) (r : Request)
    → IsSafe a authorization (handle a authorization r)
unfolding handle handle_for
handle-IsSafe a authorization r = elim (Option-cases (authenticate a authorization)) [
  | inl unknown ↦ inl (rw unknown refl)
  | inr (id, known) ↦ rw known (inr (id, refl, handle_request-IsAllowed a id r))
]
