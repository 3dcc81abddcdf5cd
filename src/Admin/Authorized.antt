-- ===== src/Admin/Authorized.antt =====
-- Who can have a command sent to an aggregate: the handlers of internal/controlplane/admin.go.
use inferbus.Base.{
  Bool, Bool-cases, List, Option, Option-cases, String, arith, false, inl, inr, none, refl, some,
  str_eq_iff, subst, true, ◌==◌, ◌≡◌, ◌⊎◌,
}
use inferbus.Base.{string_eq}
use inferbus.Text.{codes, text_beq}
use inferbus.Org as O
use inferbus.ApiKey as K
use inferbus.Projector.StreamId.{global_scope}
use inferbus.ReadModel.{MemReadStore, MemberRow}
use inferbus.Admin.{
  Admin, Identity, Verdict, authorize, authorize_org_role, is_healthy, members_at, org_not_found,
  role_among, store_failed, unhealthy, verdict,
}
use inferbus.Admin.Decisions.{
  Decision, authorize_org, check, refused, to_alias, to_key, to_org, with_body,
}

-- The projections are healthy, and the read model lists the caller with this role in the org.
pub record HasRole (a : Admin) (id : Identity) (org role : String) : Type 0 where
  pub healthy : is_healthy a ≡ true
  pub store : MemReadStore
  pub members : List MemberRow
  pub read : a.rows ≡ some store
  pub listed : members_at org store ≡ some members
  pub has_role : role_among id.sub members ≡ role

abbrev pub MayManageOrg : Admin → Identity → String → Type 0
MayManageOrg a id org = (id.platform_admin ≡ true) ⊎ HasRole a id org "owner"

abbrev pub MayManageKeys : Admin → Identity → String → Type 0
MayManageKeys a id org =
    (id.platform_admin ≡ true) ⊎ (HasRole a id org "owner" ⊎ HasRole a id org "admin")

-- Only a platform admin creates an org.
abbrev pub OrgAllowed : Admin → Identity → String → O.Command → Type 0
OrgAllowed a id org (O.create c) = id.platform_admin ≡ true
OrgAllowed a id org (O.rename name) = MayManageOrg a id org
OrgAllowed a id org (O.Command.upsert_member sub role) = MayManageOrg a id org
OrgAllowed a id org (O.Command.remove_member sub) = MayManageOrg a id org
OrgAllowed a id org (O.create_project project name) = MayManageOrg a id org
OrgAllowed a id org (O.archive_project project) = MayManageOrg a id org
OrgAllowed a id org O.Command.unset = false ≡ true

-- The caller may manage the keys of the org that the key is in.
abbrev pub InKeyOrg : Admin → Identity → String → Type 0
InKeyOrg a id key = (k : K.ApiKey) × (a.load_key key ≡ some k) × MayManageKeys a id k.org

abbrev pub KeyAllowed : Admin → Identity → String → K.Command → Type 0
KeyAllowed a id key (K.create c) = MayManageKeys a id c.org
KeyAllowed a id key (K.rotate hash) = InKeyOrg a id key
KeyAllowed a id key K.disable = InKeyOrg a id key
KeyAllowed a id key (K.set_allowlist allow) = InKeyOrg a id key
KeyAllowed a id key (K.set_limits rpm budget) = InKeyOrg a id key
KeyAllowed a id key K.Command.unset = false ≡ true

-- Only a platform admin changes a global alias, whatever roles the read model lists for its scope.
abbrev pub AliasAllowed : Admin → Identity → String → Type 0
AliasAllowed a id scope =
    (text_beq (codes scope) global_scope ≡ true → id.platform_admin ≡ true)
    × MayManageKeys a id scope

abbrev pub IsAllowed : Admin → Identity → Decision → Type 0
IsAllowed a id (refused status kind) = Unit
IsAllowed a id (to_org org c) = OrgAllowed a id org c
IsAllowed a id (to_key key c) = KeyAllowed a id key c
IsAllowed a id (to_alias scope name c) = AliasAllowed a id scope

module _ (a : Admin) (id : Identity) where
  pub check-IsAllowed : (b : Bool) (d : Decision) → IsAllowed a id d → IsAllowed a id (check b d)
  check-IsAllowed true d h = h
  check-IsAllowed false d h = tt

  pub with_body-IsAllowed :
      {B : Type 0} (o : Option B) (k : B → Decision)
      → ((b : B) → IsAllowed a id (k b))
      → IsAllowed a id (with_body o k)
  with_body-IsAllowed none k h = tt
  with_body-IsAllowed (some b) k h = h b

  pub authorize_org-IsAllowed :
      (v : Verdict) (d : Decision)
      → (v ≡ verdict true → IsAllowed a id d)
      → IsAllowed a id (authorize_org v d)
  authorize_org-IsAllowed unhealthy d h = tt
  authorize_org-IsAllowed store_failed d h = tt
  authorize_org-IsAllowed org_not_found d h = tt
  authorize_org-IsAllowed (verdict true) d h = h refl
  authorize_org-IsAllowed (verdict false) d h = tt

  -- A positive verdict needs a platform admin, or a role that `Authorize` accepts.
  pub accepted :
      (org need : String)
      → authorize_org_role a id org need ≡ verdict true
      → (id.platform_admin ≡ true)
        ⊎ ((role : String) × (authorize id role need ≡ true) × HasRole a id org role)
  unfolding authorize_org_role
  accepted org need h = elim (Bool-cases id.platform_admin) [
    | inl p ↦ inl p
    | inr plain ↦ elim (Bool-cases (is_healthy a)) [
      | inr sick ↦ absurd (ground (arith, h, plain, sick))
      | inl well ↦ elim (Option-cases a.rows) [
        | inl down ↦ absurd (ground (arith, h, plain, well, down))
        | inr (s, up) ↦ elim (Option-cases (members_at org s)) [
          | inl missing ↦ absurd (ground (arith, h, plain, well, up, missing))
          | inr (ms, listed) ↦ inr (
            role_among id.sub ms,
            ground (arith, h, plain, well, up, listed),
            record {
              healthy = well;
              store = s;
              members = ms;
              read = up;
              listed = listed;
              has_role = refl;
            },
          )
        ]
      ]
    ]
  ]

  pub manages_org :
      (org : String)
      → authorize_org_role a id org "manage_org" ≡ verdict true
      → MayManageOrg a id org
  unfolding authorize
  manages_org org h = elim (accepted org "manage_org" h) [
    | inl p ↦ inl p
    | inr (role, yes_role, has) ↦ elim (Bool-cases id.platform_admin) [
      | inl p ↦ inl p
      | inr plain ↦
          inr (
            subst (HasRole a id org) (ground (arith, plain, yes_role, str_eq_iff role "owner")) has)
    ]
  ]

  pub manages_keys :
      (org : String)
      → authorize_org_role a id org "manage_keys" ≡ verdict true
      → MayManageKeys a id org
  unfolding authorize
  manages_keys org h = elim (accepted org "manage_keys" h) [
    | inl p ↦ inl p
    | inr (role, yes_role, has) ↦ elim (Bool-cases id.platform_admin) [
      | inl p ↦ inl p
      | inr plain ↦ elim (Bool-cases (role == "owner")) [
        | inl owns ↦
            inr (inl (subst (HasRole a id org) (ground (arith, owns, str_eq_iff role "owner")) has))
        | inr other ↦ inr (
            inr (
              subst (HasRole a id org)
                (ground (arith, plain, yes_role, other, str_eq_iff role "admin")) has))
      ]
    ]
  ]
