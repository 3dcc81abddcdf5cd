-- ===== src/Admin.antt =====
-- The admin API: who is asking and what that caller may do, internal/controlplane/auth.go and the
-- helpers of internal/controlplane/admin.go. The token verifier, the read store's failures, the
-- loads of aggregates and es.NewStreamID are fields of `Admin`.
pub mod Decisions
pub mod Handlers
pub mod Authorized
pub mod Current
pub mod Sources
pub mod Reads
pub mod Answers
use Prim.Native.Char.{code}
use inferbus.Base.{
  Bool, List, Option, String, [], false, if◌then◌else◌, leb, nat_beq, none, not, some, true, ℕ,
  ◌&&◌, ◌==◌, ◌||◌, ◌∷◌,
}
use inferbus.Base.{string_eq}
use inferbus.Text.{Text, codes, text_beq}
use inferbus.Wire.Slug.{slug}
use inferbus.Org.{Org}
use inferbus.ApiKey.{ApiKey}
use inferbus.Gateway.Dispatch.{bearer, strip_prefix}
use inferbus.ReadModel.{MemReadStore, MemberRow, get_org}

pub record Identity : Type 0 where
  pub sub : String
  pub platform_admin : Bool
  pub bootstrap : Bool

-- `rows` is `none` if the read store fails, `load_org` and `load_key` are `none` on an error.
pub record Admin : Type 0 where
  pub bootstrap_token : String
  pub platform_admins : List String
  pub verify : String → Option String
  pub healthy : Option Bool
  pub rows : Option MemReadStore
  pub load_org : String → Option Org
  pub load_key : String → Option ApiKey
  pub stream_id_ok : Text → Bool

-- `isPlatformAdmin`
unfoldable pub is_platform_admin : List String → String → Bool
is_platform_admin [] sub = false
is_platform_admin (a ∷ admins) sub = a == sub || is_platform_admin admins sub

verified : List String → Option String → Option Identity
verified admins none = none
verified admins (some sub) =
    some (record { sub = sub; platform_admin = is_platform_admin admins sub; bootstrap = false })

authenticated : Admin → Option String → Option Identity
unfolding verified
authenticated a none = none
authenticated a (some token) =
    if not (a.bootstrap_token == "") && token == a.bootstrap_token
    then some (record { sub = "bootstrap"; platform_admin = true; bootstrap = true })
    else verified a.platform_admins (a.verify token)

-- `bearerToken`, which reads the header as the gateway does.
abbrev bearer_token : String → Option String
bearer_token authorization = bearer (strip_prefix "Bearer " authorization)

-- `Authenticate`; `none` is ErrUnauthenticated.
unfoldable pub authenticate : Admin → String → Option Identity
unfolding authenticated
authenticate a authorization = authenticated a (bearer_token authorization)

-- `Authorize`
unfoldable pub authorize : Identity → String → String → Bool
authorize id role need =
    if id.platform_admin
    then true
    else if role == "owner"
    then need == "read" || (need == "manage_keys" || need == "manage_org")
    else if role == "admin"
    then need == "read" || need == "manage_keys"
    else role == "viewer" && need == "read"

-- `isHealthy`; without a check the control plane counts as healthy.
abbrev pub is_healthy : Admin → Bool
is_healthy a = elim a.healthy [ none ↦ true | some h ↦ h ]

-- The role of the first member row of this subject.
unfoldable pub role_among : String → List MemberRow → String
role_among sub [] = ""
role_among sub (m ∷ members) = if m.sub == sub then m.role else role_among sub members

pub data Verdict : Type 0 where
  unhealthy store_failed org_not_found : Verdict
  verdict : Bool → Verdict

abbrev pub verdict_of : Identity → String → Option (List MemberRow) → Verdict
verdict_of id need none = org_not_found
verdict_of id need (some members) = verdict (authorize id (role_among id.sub members) need)

-- The member rows of an org, as `GetOrg` returns them.
unfoldable pub members_at : String → MemReadStore → Option (List MemberRow)
members_at org s = elim (get_org org s) [
  | none ↦ none
  | some (row, members, projects) ↦ some members
]

-- `authorizeOrgRole`
unfoldable pub authorize_org_role : Admin → Identity → String → String → Verdict
authorize_org_role a id org need =
    if id.platform_admin
    then verdict true
    else if not (is_healthy a)
    then unhealthy
    else elim a.rows [ none ↦ store_failed | some s ↦ verdict_of id need (members_at org s) ]

-- A JSON string that is a subject-safe token already.
unfoldable pub valid_slug : String → Bool
valid_slug s = not (s == "") && text_beq (slug (codes s)) (codes s)

-- `unicode.IsSpace`
unfoldable pub is_space : ℕ → Bool
is_space c =
    (leb 9 c && leb c 13)
    || (nat_beq c 32
        || (nat_beq c 133
            || (nat_beq c 160
                || (nat_beq c 5760
                    || ((leb 8192 c && leb c 8202)
                        || (nat_beq c 8232
                            || (nat_beq c 8233
                                || (nat_beq c 8239 || (nat_beq c 8287 || nat_beq c 12288)))))))))

trim_left : String → String
trim_left String.[] = String.[]
trim_left (String.◌∷◌ c s) =
    let rest = trim_left s in if is_space (code c) then rest else String.◌∷◌ c s

trim_right : String → String
trim_right String.[] = String.[]
trim_right (String.◌∷◌ c s) =
    let rest = trim_right s in if rest == "" && is_space (code c) then "" else String.◌∷◌ c rest

-- `strings.TrimSpace`
unfoldable pub trim_space : String → String
unfolding trim_left trim_right
trim_space s = trim_right (trim_left s)
