-- ===== src/Admin/Reads/Shown.antt =====
-- What the handlers of internal/controlplane/admin.go that read may show, and to whom.
use inferbus.Base.{
  Bool, Bool-cases, List, Option, String, [], arith, inl, inr, map, refl, some, str_eq_iff, true,
  ◌==◌, ◌∷◌, ◌≡◌, ◌⊎◌,
}
use inferbus.Base.{string_eq}
use inferbus.Dict.{Dict, lookup}
use inferbus.Text.{Text, codes, text_beq, text_beq_iff}
use inferbus.Org.{valid_roles}
use inferbus.Projector.StreamId.{global_scope}
use inferbus.ReadModel.{
  AliasRow, KeyRow, MemReadStore, OrgRow, ProjectRow, list_aliases, list_keys, member_rows,
  members_of, projects_of, put_in_order, rows_where, sort_by, text_ltb,
}
use inferbus.Admin.Sources.{Sources, UsageBucket, usage_window_interval}
use inferbus.Admin.Reads.{
  Answer, KeyResponse, OrgResponse, ProjectResponse, Read, aliases, get_one_org,
  key_response_from_row, keys, list_all_workers, list_org_keys, list_scope_aliases, org, orgs,
  project_responses, refused, usage_body, usage_of, workers,
}
use inferbus.Admin.{Admin, Identity, authenticate}
use inferbus.Admin.Authorized.{HasRole}

-- A platform admin, or one whom the read model lists in the org under one of the three roles, while
-- the projections are healthy.
abbrev pub MayRead : Admin → Identity → String → Type 0
MayRead a id o =
    (id.platform_admin ≡ true) ⊎ ((role : String) × (valid_roles role ≡ true) × HasRole a id o role)

abbrev pub All : {A : Type 0} → (A → Type 0) → List A → Type 0
All P [] = Unit {0}
All P (x ∷ xs) = P x × All P xs

-- A key of the org, with no plaintext.
abbrev pub IsKeyOf : String → KeyResponse → Type 0
IsKeyOf o k = (k.org ≡ o) × (k.key ≡ "")

-- Row for row the projects of the store.
abbrev AsProjects : List ProjectRow → List ProjectResponse → Type 0
AsProjects [] [] = Unit {0}
AsProjects (r ∷ rows) (p ∷ ps) =
    (p.id ≡ r.id) × (p.name ≡ r.name) × (p.archived ≡ r.archived) × AsProjects rows ps
AsProjects rows ps = ⊥

-- The body shows the rows of this org, its members and its projects.
pub record IsOrgBody (a : Admin) (o : String) (body : OrgResponse) : Type 0 where
  pub store : MemReadStore
  pub row : OrgRow
  pub read_from : a.rows ≡ some store
  pub found : lookup o store.orgs ≡ some row
  pub id_shown : body.id ≡ row.id
  pub name_shown : body.name ≡ row.name
  pub members_shown : body.members ≡ sort_by (λ r. codes r.sub) (member_rows (members_of o store))
  pub projects_shown :
      AsProjects
        (sort_by (λ r. codes r.id) (rows_where (λ r. true) (projects_of o store)))
        body.projects

abbrev IsWindow : String → String → Type 0
IsWindow window interval =
    ((window ≡ "24h") × (interval ≡ "24 HOUR"))
    ⊎ (((window ≡ "7d") × (interval ≡ "7 DAY")) ⊎ ((window ≡ "30d") × (interval ≡ "30 DAY")))

-- The buckets are the answer to the query for this org and the interval of the window.
pub record IsUsageBody (src : Sources) (o window : String) (buckets : List UsageBucket)
    : Type 0 where
  pub query : String → String → Option (List UsageBucket)
  pub interval : String
  pub wired : src.usage ≡ some query
  pub in_window : IsWindow window interval
  pub asked : query o interval ≡ some buckets

-- What an answer shows, and that this caller may see it.
abbrev pub IsAllowedAnswer : Admin → Sources → Identity → Read → Answer → Type 0
IsAllowedAnswer a src id r (refused status kind) = Unit {0}
IsAllowedAnswer a src id r (orgs rows) = id.platform_admin ≡ true
IsAllowedAnswer a src id (get_one_org o) (org body) = MayRead a id o × IsOrgBody a o body
IsAllowedAnswer a src id (list_org_keys o) (keys rows) = MayRead a id o × All (IsKeyOf o) rows
IsAllowedAnswer a src id (list_scope_aliases scope) (aliases rows) =
    ((text_beq (codes scope) global_scope ≡ true) ⊎ MayRead a id scope)
    × All (λ row. row.scope ≡ codes scope) rows
IsAllowedAnswer a src id (usage_of o window) (usage_body o' w buckets) =
    MayRead a id o × (o' ≡ o) × (w ≡ window) × IsUsageBody src o window buckets
IsAllowedAnswer a src id list_all_workers (workers reports) = id.platform_admin ≡ true
IsAllowedAnswer a src id r answer = ⊥

abbrev pub IsSafeRead : Admin → Sources → String → Read → Answer → Type 0
IsSafeRead a src authorization r (refused status kind) = Unit {0}
IsSafeRead a src authorization r answer =
    (id : Identity) × (authenticate a authorization ≡ some id) × IsAllowedAnswer a src id r answer

module _ {A : Type 0} (P : A → Type 0) (name_of : A → Text) where
  All-put_in_order : (x : A) (ys : List A) → P x → All P ys → All P (put_in_order name_of x ys)
  unfolding put_in_order
  All-put_in_order x [] h hs = (h, tt)
  All-put_in_order x (y ∷ ys) h hs = elim (Bool-cases (text_ltb (name_of y) (name_of x))) [
    | inl less ↦ rw less (hs.0, All-put_in_order x ys h hs.1)
    | inr not_less ↦ rw not_less (h, hs)
  ]

  All-sort_by : (xs : List A) → All P xs → All P (sort_by name_of xs)
  unfolding sort_by
  All-sort_by [] h = tt
  All-sort_by (x ∷ xs) h = All-put_in_order x (sort_by name_of xs) h.0 (All-sort_by xs h.1)

All-rows_where :
    {K A : Type 0} (wanted : A → Bool) (m : Dict K A)
    → All (λ row. wanted row ≡ true) (rows_where wanted m)
unfolding rows_where
All-rows_where wanted [] = tt
All-rows_where wanted ((k, row) ∷ m) = elim (Bool-cases (wanted row)) [
  | inl y ↦ rw y (y, All-rows_where wanted m)
  | inr n ↦ rw n (All-rows_where wanted m)
]

All-keys :
    (o : String) (rows : List KeyRow)
    → All (λ row. (row.org == o) ≡ true) rows
    → All (IsKeyOf o) (map key_response_from_row rows)
unfolding key_response_from_row
All-keys o [] h = tt
All-keys o (row ∷ rows) h = (((str_eq_iff row.org o).0 h.0, refl), All-keys o rows h.1)

pub listed_keys :
    (o : String) (s : MemReadStore) → All (IsKeyOf o) (map key_response_from_row (list_keys o s))
unfolding list_keys
listed_keys o s = All-keys o (list_keys o s) (
    All-sort_by (λ row. (row.org == o) ≡ true) (λ r. codes r.id)
      (rows_where (λ r. r.org == o) s.keys) (All-rows_where (λ r. r.org == o) s.keys))

All-scopes :
    (t : Text) (rows : List AliasRow)
    → All (λ row. text_beq row.scope t ≡ true) rows
    → All (λ row. row.scope ≡ t) rows
All-scopes t [] h = tt
All-scopes t (row ∷ rows) h = ((text_beq_iff row.scope t).0 h.0, All-scopes t rows h.1)

pub listed_aliases : (t : Text) (s : MemReadStore) → All (λ row. row.scope ≡ t) (list_aliases t s)
unfolding list_aliases
listed_aliases t s = All-scopes t (list_aliases t s) (
    All-sort_by (λ row. text_beq row.scope t ≡ true) (λ r. r.name)
      (rows_where (λ r. text_beq r.scope t) s.aliases)
      (All-rows_where (λ r. text_beq r.scope t) s.aliases))

pub project_responses-AsProjects :
    (rows : List ProjectRow) → AsProjects rows (project_responses rows)
unfolding project_responses
project_responses-AsProjects [] = tt
project_responses-AsProjects (r ∷ rows) = (refl, refl, refl, project_responses-AsProjects rows)

pub interval-IsWindow :
    (window interval : String)
    → usage_window_interval window ≡ some interval
    → IsWindow window interval
unfolding usage_window_interval
interval-IsWindow window interval e = elim (Bool-cases (window == "24h")) [
  | inl day ↦ inl ((str_eq_iff window "24h").0 day, ground (arith, e, day))
  | inr d ↦ elim (Bool-cases (window == "7d")) [
    | inl week ↦ inr (inl ((str_eq_iff window "7d").0 week, ground (arith, e, d, week)))
    | inr w ↦ elim (Bool-cases (window == "30d")) [
      | inl month ↦ inr (inr ((str_eq_iff window "30d").0 month, ground (arith, e, d, w, month)))
      | inr m ↦ absurd (ground (arith, e, d, w, m))
    ]
  ]
]
