-- ===== src/Org/Projects.antt =====
-- Archiving a project retires its id: the `CreateProject` and `ArchiveProject` arms of
-- internal/controlplane/org/decider.go.
use inferbus.Base.{
  string_eq, List, Option, String, [], arith, false, none, refl, some, str_eq_iff, true, ◌∷◌, ◌≡◌,
}
use inferbus.Dict.{lookup, lookup-insert}
use inferbus.Org.{
  Command, Org, Project, after, archive_project, create, create_project, decide, decide_archive,
  decide_remove, decide_upsert, evolve, evolve_all, handle, remove_member, rename, run, unset,
  upsert_member,
}

-- The project is on record as archived.
abbrev pub IsArchived : Option Project → Type 0
IsArchived none = ⊥
IsArchived (some p) = p.archived ≡ true

archive-IsArchived :
    (s : Org) (id other : String) (o : Option Project)
    → lookup other s.projects ≡ o
    → IsArchived (lookup id s.projects)
    → IsArchived (lookup id (after s (decide_archive other o)).projects)
unfolding decide_archive evolve evolve_all
archive-IsArchived s id other none e a = a
archive-IsArchived s id other (some p) e a =
    ground (arith, lookup-insert other id (record p { archived = true }) s.projects)

create-IsArchived :
    (s : Org) (id other name : String)
    → IsArchived (lookup id s.projects)
    → IsArchived (lookup id (handle s (create_project other name)).projects)
unfolding handle decide evolve evolve_all
create-IsArchived s id other name a = ground (
  arith,
  str_eq_iff other id,
  lookup-insert other id (record { id = other; name = name; archived = false }) s.projects,
)

handle-IsArchived :
    (s : Org) (id : String) (c : Command)
    → IsArchived (lookup id s.projects)
    → IsArchived (lookup id (handle s c).projects)
unfolding handle decide decide_upsert decide_remove evolve evolve_all
handle-IsArchived s id (create c) a = ground arith
handle-IsArchived s id (rename name) a = ground arith
handle-IsArchived s id (upsert_member sub role) a = ground arith
handle-IsArchived s id (remove_member sub) a = ground arith
handle-IsArchived s id (create_project other name) a = create-IsArchived s id other name a
handle-IsArchived s id (archive_project other) a =
    ground (arith, archive-IsArchived s id other (lookup other s.projects) refl a)
handle-IsArchived s id unset a = a

-- A project that is archived stays archived under every list of commands, `CreateProject` with its
-- id included.
pub run-IsArchived :
    (s : Org) (id : String) (cs : List Command)
    → IsArchived (lookup id s.projects)
    → IsArchived (lookup id (run s cs).projects)
unfolding run
run-IsArchived s id [] a = a
run-IsArchived s id (c ∷ cs) a = run-IsArchived (handle s c) id cs (handle-IsArchived s id c a)
