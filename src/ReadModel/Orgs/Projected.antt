-- ===== src/ReadModel/Orgs/Projected.antt =====
-- One org event applied to the rows: applyOrgEvent of internal/controlplane/readmodel.go.
use inferbus.Base.{
  List, Option, Option-cases, String, [], arith, false, if◌then◌else◌, inl, inr, none, refl, some,
  subst, true, ◌==◌, ◌≡◌,
}
use inferbus.Base.{string_eq}
use inferbus.Dict.{Dict, delete, insert, lookup, lookup-delete, lookup-insert, lookup-insert_self}
use inferbus.Org.{
  Event, Org, Project, created, evolve, evolve_all, member_removed, member_upserted,
  project_archived, project_created, renamed, unset,
}
use inferbus.ReadModel.{
  MemReadStore, ProjectRow, inner, members_of, projects_of, remove_from, remove_member,
  upsert_member, upsert_org, upsert_project,
}
use inferbus.ReadModel.Apply.{apply_org, project_row}
use inferbus.ReadModel.Orgs.{Admissible, AllAdmissible, RowsShow, evolve_all_archived}

inner-remove_from :
    {V : Type 0} (org k j : String) (ms : Dict String (Dict String V))
    → lookup j (inner (lookup org (remove_from org k (lookup org ms) ms)))
      ≡ (if k == j then none else lookup j (inner (lookup org ms)))
unfolding remove_from lookup
inner-remove_from org k j ms = elim (Option-cases (lookup org ms)) [
  | inl missing ↦ rw missing (ground arith)
  | inr (m, found) ↦ rw found (rw (lookup-insert_self org (delete k m) ms) (lookup-delete k j m))
]

remove_from_other :
    {V : Type 0} (org other k : String) (o : Option (Dict String V))
    (ms : Dict String (Dict String V))
    → (org == other) ≡ false
    → lookup other (remove_from org k o ms) ≡ lookup other ms
unfolding remove_from
remove_from_other org other k none ms apart = refl
remove_from_other org other k (some m) ms apart =
    ground (arith, lookup-insert org other (delete k m) ms)

module _ (id : String) (old : MemReadStore) (b : Org) (s : MemReadStore)
    (h : RowsShow id old b s) where
  named-RowsShow :
      (own_id name : String)
      → RowsShow id old
          (record b { id = own_id; name = name })
          (upsert_org (record { id = id; name = name }) s)
  unfolding upsert_org
  named-RowsShow own_id name = record {
    org_shown = λ given. lookup-insert_self id (record { id = id; name = name }) s.orgs;
    members_shown = h.members_shown;
    projects_shown = h.projects_shown;
    ids_match = h.ids_match;
    others_kept = λ other apart. ground (
      arith,
      lookup-insert id other (record { id = id; name = name }) s.orgs,
      h.others_kept other apart,
    );
  }

  upsert_member-RowsShow :
      (sub role : String)
      → RowsShow id old
          (record b { members = insert sub role b.members })
          (upsert_member id sub role s)
  unfolding upsert_member
  upsert_member-RowsShow sub role =
      let m : Dict String String = insert sub role (members_of id s) in
      record {
        org_shown = h.org_shown;
        members_shown = λ k. rw (lookup-insert_self id m s.members) (
            ground (
              arith,
              lookup-insert sub k role (members_of id s),
              lookup-insert sub k role b.members,
              h.members_shown k,
            ));
        projects_shown = h.projects_shown;
        ids_match = h.ids_match;
        others_kept = λ other apart.
            ground (arith, lookup-insert id other m s.members, h.others_kept other apart);
      }

  remove_member-RowsShow :
      (sub : String)
      → RowsShow id old (record b { members = delete sub b.members }) (remove_member id sub s)
  unfolding remove_member
  remove_member-RowsShow sub = record {
    org_shown = h.org_shown;
    members_shown = λ k. ground (
      arith,
      inner-remove_from id sub k s.members,
      lookup-delete sub k b.members,
      h.members_shown k,
    );
    projects_shown = h.projects_shown;
    ids_match = h.ids_match;
    others_kept = λ other apart. ground (
      arith,
      remove_from_other id other sub (lookup id s.members) s.members apart,
      h.others_kept other apart,
    );
  }

  upsert_project-RowsShow :
      (p : Project)
      → RowsShow id old
          (record b { projects = insert p.id p b.projects })
          (upsert_project (project_row id p) s)
  unfolding upsert_project
  upsert_project-RowsShow p =
      let m : Dict String ProjectRow = insert p.id (project_row id p) (projects_of id s) in
      record {
        org_shown = h.org_shown;
        members_shown = h.members_shown;
        projects_shown = λ k. rw (lookup-insert_self id m s.projects) (
            ground (
              arith,
              lookup-insert p.id k (project_row id p) (projects_of id s),
              lookup-insert p.id k p b.projects,
              h.projects_shown k,
            ));
        ids_match = λ k q found.
            ground
              (arith, lookup-insert p.id k p b.projects, h.ids_match k q, string_eq.beq_iff p.id k);
        others_kept = λ other apart.
            ground (arith, lookup-insert id other m s.projects, h.others_kept other apart);
      }

module _ (id : String) (old : MemReadStore) (b : Org) (s : MemReadStore)
    (h : RowsShow id old b s) where
  archived-RowsShow :
      (project : String) (p : Project) (state : Org)
      → lookup project b.projects ≡ some p
      → lookup project state.projects ≡ some (record p { archived = true })
      → RowsShow id old
          (evolve b (project_archived project))
          (apply_org id (project_archived project) (some state) s []).0
  unfolding evolve apply_org
  archived-RowsShow project p state found now =
      let archived : Project = record p { archived = true } in
      rw found (
        rw now (
          subst
            (λ k.
              RowsShow id old (record b { projects = insert k archived b.projects })
                (upsert_project (project_row id archived) s))
            (h.ids_match project p found) (upsert_project-RowsShow id old b s h archived)))

  now_archived :
      (project : String) (p : Project)
      → lookup project b.projects ≡ some p
      → lookup project (evolve b (project_archived project)).projects
        ≡ some (record p { archived = true })
  unfolding evolve
  now_archived project p found =
      rw found (lookup-insert_self project (record p { archived = true }) b.projects)

  current_archived :
      (project : String) (p : Project) (es : List Event)
      → lookup project b.projects ≡ some p
      → AllAdmissible (evolve b (project_archived project)) es
      → lookup project (evolve_all (evolve b (project_archived project)) es).projects
        ≡ some (record p { archived = true })
  current_archived project p es found later =
      evolve_all_archived (evolve b (project_archived project)) es project
        (record p { archived = true }) later (now_archived project p found) refl

  -- The event may be projected when `es` more are committed.
  pub apply_org-RowsShow :
      (e : Event) (es : List Event)
      → Admissible b e
      → AllAdmissible (evolve b e) es
      → RowsShow id old (evolve b e) (apply_org id e (some (evolve_all (evolve b e) es)) s []).0
  unfolding evolve apply_org
  apply_org-RowsShow (created c) es fits later =
      let named = named-RowsShow id old b s h c.id c.name in
      upsert_member-RowsShow id old (record b { id = c.id; name = c.name })
        (upsert_org (record { id = id; name = c.name }) s) named c.owner_sub "owner"
  apply_org-RowsShow (renamed name) es fits later = named-RowsShow id old b s h b.id name
  apply_org-RowsShow (member_upserted sub role) es fits later =
      upsert_member-RowsShow id old b s h sub role
  apply_org-RowsShow (member_removed sub) es fits later = remove_member-RowsShow id old b s h sub
  apply_org-RowsShow (project_created project name) es fits later =
      upsert_project-RowsShow id old b s h (record { id = project; name = name; archived = false })
  apply_org-RowsShow (project_archived project) es fits later =
      elim (Option-cases (lookup project b.projects)) [
        | inl missing ↦ absurd (ground (arith, fits, missing))
        | inr (p, found) ↦
            archived-RowsShow project p (evolve_all (evolve b (project_archived project)) es) found
              (current_archived project p es found later)
      ]
  apply_org-RowsShow unset es fits later = h
