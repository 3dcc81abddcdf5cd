-- ===== src/Org.antt =====
-- The org aggregate: internal/controlplane/org/decider.go, over the messages of
-- api/controlplane/v1/org.pb.go. `Decide` and `Evolve` keep their switch over the `oneof kind`;
-- `unset` stands for a wrapper whose kind is nil. `Decide` never returns a constraint, so its second
-- result is left out.
pub mod Owners
pub mod Projects
pub mod Codec
use inferbus.Base.{
  string_eq, Bool, List, Option, String, [], false, if◌then◌else◌, is_some, leb, none, not, some,
  suc, true, ℕ, ◌&&◌, ◌==◌, ◌||◌, ◌∷◌,
}
use inferbus.Dict.{Dict, delete, insert, lookup}

pub record Project : Type 0 where
  pub id : String
  pub name : String
  pub archived : Bool

pub record Org : Type 0 where
  pub id : String
  pub name : String
  pub members : Dict String String
  pub projects : Dict String Project

pub record CreateOrg : Type 0 where
  pub id : String
  pub name : String
  pub owner_sub : String

pub data Command : Type 0 where
  create : CreateOrg → Command
  rename : String → Command
  upsert_member : String → String → Command
  remove_member : String → Command
  create_project : String → String → Command
  archive_project : String → Command
  unset : Command

pub data Event : Type 0 where
  created : CreateOrg → Event
  renamed : String → Event
  member_upserted : String → String → Event
  member_removed : String → Event
  project_created : String → String → Event
  project_archived : String → Event
  unset : Event

pub data Error : Type 0 where
  already_exists not_found last_owner no_such_project invalid_role unknown_command : Error

pub data Result {ℓ} (A : Type ℓ) : Type ℓ where
  ok : A → Result A
  err : Error → Result A

abbrev pub initial : Org
initial = record { id = ""; name = ""; members = []; projects = [] }

unfoldable pub valid_roles : String → Bool
valid_roles role = role == "owner" || (role == "admin" || role == "viewer")

abbrev pub is_owner : String → Bool
is_owner role = role == "owner"

-- How many members hold the owner role.
unfoldable pub count_owners : Dict String String → ℕ
count_owners [] = 0
count_owners ((sub, role) ∷ m) = let n = count_owners m in if is_owner role then suc n else n

unfoldable pub owner_count : Org → ℕ
owner_count s = count_owners s.members

-- The current role is an owner's.
abbrev pub holds_owner : Option String → Bool
holds_owner none = false
holds_owner (some role) = is_owner role

abbrev pub absent : Org → Bool
absent s = s.id == ""

unfoldable pub decide_upsert : Org → String → String → Result (List Event)
decide_upsert s sub role =
    if not (valid_roles role)
    then err invalid_role
    else if holds_owner (lookup sub s.members) && (not (is_owner role) && leb (owner_count s) 1)
    then err last_owner
    else ok (member_upserted sub role ∷ [])

unfoldable pub decide_remove : Org → String → Option String → Result (List Event)
decide_remove s sub none = ok []
decide_remove s sub (some role) =
    if is_owner role && leb (owner_count s) 1 then err last_owner else ok (member_removed sub ∷ [])

unfoldable pub decide_archive : String → Option Project → Result (List Event)
decide_archive id none = err no_such_project
decide_archive id (some p) = if p.archived then ok [] else ok (project_archived id ∷ [])

unfoldable pub decide : Org → Command → Result (List Event)
unfolding decide_upsert decide_remove decide_archive
decide s (create c) = if absent s then ok (created c ∷ []) else err already_exists
decide s (rename name) = if absent s then err not_found else ok (renamed name ∷ [])
decide s (upsert_member sub role) = if absent s then err not_found else decide_upsert s sub role
decide s (remove_member sub) =
    if absent s then err not_found else decide_remove s sub (lookup sub s.members)
decide s (create_project id name) =
    if absent s
    then err not_found
    else if is_some (lookup id s.projects)
    then err already_exists
    else ok (project_created id name ∷ [])
decide s (archive_project id) =
    if absent s then err not_found else decide_archive id (lookup id s.projects)
decide s unset = err unknown_command

-- `p.Archived = true` through the pointer that the map holds; a missing project is left alone.
set_archived : String → Option Project → Dict String Project → Dict String Project
set_archived id none m = m
set_archived id (some p) m = insert id (record p { archived = true }) m

unfoldable pub evolve : Org → Event → Org
unfolding set_archived
evolve s (created c) = record s {
  id = c.id;
  name = c.name;
  members = insert c.owner_sub "owner" s.members;
}
evolve s (renamed name) = record s { name = name }
evolve s (member_upserted sub role) = record s { members = insert sub role s.members }
evolve s (member_removed sub) = record s { members = delete sub s.members }
evolve s (project_created id name) = record s {
  projects = insert id (record { id = id; name = name; archived = false }) s.projects;
}
evolve s (project_archived id) = record s {
  projects = set_archived id (lookup id s.projects) s.projects;
}
evolve s unset = s

-- The aggregate runtime folds the decided events into the state; a refused command changes nothing.
unfoldable pub evolve_all : Org → List Event → Org
evolve_all s [] = s
evolve_all s (e ∷ es) = evolve_all (evolve s e) es

abbrev pub after : Org → Result (List Event) → Org
after s (ok es) = evolve_all s es
after s (err _) = s

unfoldable pub handle : Org → Command → Org
handle s c = after s (decide s c)

unfoldable pub run : Org → List Command → Org
run s [] = s
run s (c ∷ cs) = run (handle s c) cs
