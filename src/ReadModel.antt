-- ===== src/ReadModel.antt =====
-- The admin read model: the rows and MemReadStore of internal/controlplane/readmodel.go. Every
-- method runs under the store's mutex. A row's copied slices and maps are the values themselves.
-- `sort.Slice` by a string is an insertion sort by the codes of its characters, the order of Go's `<`
-- on valid UTF-8.
pub mod Apply
pub mod Orgs
pub mod Keys
pub mod Sorted
use inferbus.Base.{
  Bool, List, Option, String, [], false, if◌then◌else◌, ltb, none, some, true, ℤ, ◌++◌, ◌==◌, ◌∷◌,
}
use inferbus.Base.{nat_eq, string_eq}
use inferbus.Dict.{Dict, delete, insert, lookup}
use inferbus.Text.{Text, codes, text_beq}
use inferbus.Text.{text_eq}

pub record OrgRow : Type 0 where
  pub id : String
  pub name : String

pub record MemberRow : Type 0 where
  pub sub : String
  pub role : String

pub record ProjectRow : Type 0 where
  pub id : String
  pub org : String
  pub name : String
  pub archived : Bool

pub record KeyRow : Type 0 where
  pub id : String
  pub org : String
  pub project : String
  pub name : String
  pub allow : List String
  pub rate_limit_rpm : ℤ
  pub monthly_token_budget : ℤ
  pub disabled : Bool

pub record AliasRow : Type 0 where
  pub scope : Text
  pub name : Text
  pub target : String
  pub params : Dict String String

pub record MemReadStore : Type 0 where
  pub orgs : Dict String OrgRow
  pub members : Dict String (Dict String String)
  pub projects : Dict String (Dict String ProjectRow)
  pub keys : Dict String KeyRow
  pub aliases : Dict Text AliasRow

abbrev pub new_mem_read_store : MemReadStore
new_mem_read_store = record { orgs = []; members = []; projects = []; keys = []; aliases = [] }

-- The inner map of `m[outer]`, which is empty while it is nil.
abbrev pub inner : {V : Type 0} → Option (Dict String V) → Dict String V
inner none = []
inner (some m) = m

abbrev pub members_of : String → MemReadStore → Dict String String
members_of org s = inner (lookup org s.members)

abbrev pub projects_of : String → MemReadStore → Dict String ProjectRow
projects_of org s = inner (lookup org s.projects)

unfoldable pub upsert_org : OrgRow → MemReadStore → MemReadStore
upsert_org row s = record s { orgs = insert row.id row s.orgs }

unfoldable pub upsert_member : String → String → String → MemReadStore → MemReadStore
upsert_member org sub role s = record s {
  members = insert org (insert sub role (members_of org s)) s.members;
}

-- `delete(s.members[orgID], sub)`, which does nothing on a nil map.
remove_from :
    {V : Type 0}
    → String
    → String
    → Option (Dict String V)
    → Dict String (Dict String V)
    → Dict String (Dict String V)
remove_from org k none ms = ms
remove_from org k (some m) ms = insert org (delete k m) ms

unfoldable pub remove_member : String → String → MemReadStore → MemReadStore
unfolding remove_from
remove_member org sub s = record s {
  members = remove_from org sub (lookup org s.members) s.members;
}

unfoldable pub upsert_project : ProjectRow → MemReadStore → MemReadStore
upsert_project row s = record s {
  projects = insert row.org (insert row.id row (projects_of row.org s)) s.projects;
}

unfoldable pub upsert_key : KeyRow → MemReadStore → MemReadStore
upsert_key row s = record s { keys = insert row.id row s.keys }

-- `scope + "/" + name`
unfoldable pub row_key : Text → Text → Text
row_key scope name = scope ++ (codes "/" ++ name)

unfoldable pub upsert_alias : AliasRow → MemReadStore → MemReadStore
upsert_alias row s = record s { aliases = insert (row_key row.scope row.name) row s.aliases }

unfoldable pub delete_alias : Text → Text → MemReadStore → MemReadStore
delete_alias scope name s = record s { aliases = delete (row_key scope name) s.aliases }

-- `s < t` on strings.
unfoldable pub text_ltb : Text → Text → Bool
text_ltb [] [] = false
text_ltb [] (d ∷ t) = true
text_ltb (c ∷ s) [] = false
text_ltb (c ∷ s) (d ∷ t) = let rest = text_ltb s t in if c == d then rest else ltb c d

module _ {A : Type 0} (name_of : A → Text) where
  unfoldable pub put_in_order : A → List A → List A
  put_in_order x [] = x ∷ []
  put_in_order x (y ∷ ys) =
      let rest = put_in_order x ys in
      if text_ltb (name_of y) (name_of x) then y ∷ rest else x ∷ (y ∷ ys)

  -- `sort.Slice(rows, func(i, j int) bool { return nameOf(rows[i]) < nameOf(rows[j]) })`
  unfoldable pub sort_by : List A → List A
  sort_by [] = []
  sort_by (x ∷ xs) = put_in_order x (sort_by xs)

module _ {K A : Type 0} (wanted : A → Bool) where
  -- The rows of a map that a query keeps.
  unfoldable pub rows_where : Dict K A → List A
  rows_where [] = []
  rows_where ((k, row) ∷ m) = let rest = rows_where m in if wanted row then row ∷ rest else rest

unfoldable pub member_rows : Dict String String → List MemberRow
member_rows [] = []
member_rows ((sub, role) ∷ m) = record { sub = sub; role = role } ∷ member_rows m

unfoldable pub list_orgs : MemReadStore → List OrgRow
list_orgs s = sort_by (λ r. codes r.id) (rows_where (λ r. true) s.orgs)

-- `none` is `ErrOrgNotFound`.
unfoldable pub get_org : String → MemReadStore → Option (OrgRow × List MemberRow × List ProjectRow)
get_org id s = elim (lookup id s.orgs) [
  | none ↦ none
  | some row ↦ some (
    row,
    sort_by (λ r. codes r.sub) (member_rows (members_of id s)),
    sort_by (λ r. codes r.id) (rows_where (λ r. true) (projects_of id s)),
  )
]

unfoldable pub list_keys : String → MemReadStore → List KeyRow
list_keys org s = sort_by (λ r. codes r.id) (rows_where (λ r. r.org == org) s.keys)

unfoldable pub list_aliases : Text → MemReadStore → List AliasRow
list_aliases scope s = sort_by (λ r. r.name) (rows_where (λ r. text_beq r.scope scope) s.aliases)
