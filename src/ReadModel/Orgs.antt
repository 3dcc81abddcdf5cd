-- ===== src/ReadModel/Orgs.antt =====
-- The org, member and project rows of the admin read model against one org aggregate: applyOrgEvent of
-- internal/controlplane/readmodel.go after internal/controlplane/org/decider.go. Commands and
-- projected events interleave in any order; an event is projected with the aggregate as it then is,
-- which may be ahead of the event.
pub mod Projected
pub mod Interleaved
use inferbus.Base.{
  List, Option, Option-cases, String, [], arith, false, inl, inr, is_some, none, some, true, ◌==◌,
  ◌∷◌, ◌≡◌,
}
use inferbus.Base.{string_eq}
use inferbus.Dict.{lookup, lookup-insert}
use inferbus.Org.{
  Event, Org, Project, absent, created, evolve, evolve_all, member_removed, member_upserted,
  project_archived, project_created, renamed, unset,
}
use inferbus.ReadModel.{MemReadStore, ProjectRow, members_of, projects_of}

-- The row that shows a project of the aggregate.
abbrev pub shown_project : String → Option Project → Option ProjectRow
shown_project org none = none
shown_project org (some p) =
    some (record { id = p.id; org = org; name = p.name; archived = p.archived })

-- The rows of org `id` show the aggregate, whose projects are stored under their ids; the rows of
-- other orgs are as in `old`. An org that was never created need not have a row.
pub record RowsShow (id : String) (old : MemReadStore) (b : Org) (s : MemReadStore) : Type 0 where
  pub org_shown : absent b ≡ false → lookup id s.orgs ≡ some (record { id = id; name = b.name })
  pub members_shown : (sub : String) → lookup sub (members_of id s) ≡ lookup sub b.members
  pub projects_shown :
      (project : String)
      → lookup project (projects_of id s) ≡ shown_project id (lookup project b.projects)
  pub ids_match :
      (project : String) (p : Project) → lookup project b.projects ≡ some p → p.id ≡ project
  pub others_kept :
      (other : String)
      → (id == other) ≡ false
      → (lookup other s.orgs ≡ lookup other old.orgs)
        × (lookup other s.members ≡ lookup other old.members)
        × (lookup other s.projects ≡ lookup other old.projects)

-- What `Decide` checks of a project before it emits the event.
abbrev pub Admissible : Org → Event → Type 0
Admissible b (created c) = Unit
Admissible b (renamed name) = Unit
Admissible b (member_upserted sub role) = Unit
Admissible b (member_removed sub) = Unit
Admissible b (project_created id name) = lookup id b.projects ≡ none
Admissible b (project_archived id) = is_some (lookup id b.projects) ≡ true
Admissible b unset = Unit

abbrev pub AllAdmissible : Org → List Event → Type 0
AllAdmissible b [] = Unit
AllAdmissible b (e ∷ es) = Admissible b e × AllAdmissible (evolve b e) es

-- An archived project stays as it is.
evolve_archived :
    (b : Org) (e : Event) (id : String) (p : Project)
    → Admissible b e
    → lookup id b.projects ≡ some p
    → p.archived ≡ true
    → lookup id (evolve b e).projects ≡ some p
unfolding evolve
evolve_archived b (created c) id p a h t = h
evolve_archived b (renamed name) id p a h t = h
evolve_archived b (member_upserted sub role) id p a h t = h
evolve_archived b (member_removed sub) id p a h t = h
evolve_archived b (project_created i name) id p a h t = ground (
  arith,
  lookup-insert i id (record { id = i; name = name; archived = false }) b.projects,
  string_eq.beq_iff i id,
)
evolve_archived b (project_archived i) id p a h t = elim (Option-cases (lookup i b.projects)) [
  | inl missing ↦ rw missing h
  | inr (q, found) ↦ rw found (
      ground (
        arith,
        lookup-insert i id (record q { archived = true }) b.projects,
        string_eq.beq_iff i id,
      ))
]
evolve_archived b unset id p a h t = h

evolve_all_archived :
    (b : Org) (es : List Event) (id : String) (p : Project)
    → AllAdmissible b es
    → lookup id b.projects ≡ some p
    → p.archived ≡ true
    → lookup id (evolve_all b es).projects ≡ some p
unfolding evolve_all
evolve_all_archived b [] id p a h t = h
evolve_all_archived b (e ∷ es) id p a h t =
    evolve_all_archived (evolve b e) es id p a.1 (evolve_archived b e id p a.0 h t) t
