-- ===== src/ReadModel/Orgs/Interleaved.antt =====
-- Commands on an org and the projection of its events, interleaved: `Decide` and `Evolve` of
-- internal/controlplane/org/decider.go, and applyOrgEvent of internal/controlplane/readmodel.go.
use inferbus.Base.{
  Bool, List, Option, String, [], ap, false, if◌then◌else◌, is_some, leb, none, not, refl, some,
  subst, sym, true, ◌&&◌, ◌++◌, ◌∙◌, ◌∷◌, ◌≡◌,
}
use inferbus.Base.{string_eq}
use inferbus.Dict.{lookup}
use inferbus.Org.{
  Command, Event, Org, Project, Result, absent, after, already_exists, archive_project, create,
  create_project, created, decide, decide_archive, decide_remove, decide_upsert, err, evolve,
  evolve_all, handle, holds_owner, invalid_role, is_owner, last_owner, member_removed,
  member_upserted, not_found, ok, owner_count, project_archived, project_created, rename, renamed,
  unset, valid_roles,
}
use inferbus.ReadModel.{MemReadStore}
use inferbus.ReadModel.Apply.{apply_org}
use inferbus.ReadModel.Orgs.{AllAdmissible, RowsShow}
use inferbus.ReadModel.Orgs.Projected.{apply_org-RowsShow}

-- The aggregate, the events that are committed and not projected yet, and the read model.
pub record OrgWorld : Type 0 where
  pub org : Org
  pub pending : List Event
  pub rows : MemReadStore

pub data OrgStep : Type 0 where
  command : Command → OrgStep
  project : OrgStep

abbrev events_of : Result (List Event) → List Event
events_of (ok es) = es
events_of (err x) = []

project_org : String → List Event → Org → MemReadStore → List Event × MemReadStore
project_org id [] o s = ([], s)
project_org id (e ∷ es) o s = (es, (apply_org id e (some o) s []).0)

unfoldable pub org_step : String → OrgWorld → OrgStep → OrgWorld
unfolding project_org
org_step id w (command c) = record w {
  org = handle w.org c;
  pending = w.pending ++ events_of (decide w.org c);
}
org_step id w project =
    let next = project_org id w.pending w.org w.rows in record w { pending = next.0; rows = next.1 }

unfoldable pub org_steps : String → OrgWorld → List OrgStep → OrgWorld
org_steps id w [] = w
org_steps id w (t ∷ ts) = org_steps id (org_step id w t) ts

evolve_all-append :
    (b : Org) (xs ys : List Event) → evolve_all b (xs ++ ys) ≡ evolve_all (evolve_all b xs) ys
unfolding evolve_all
evolve_all-append b [] ys = refl
evolve_all-append b (x ∷ xs) ys = evolve_all-append (evolve b x) xs ys

append-AllAdmissible :
    (b : Org) (xs ys : List Event)
    → AllAdmissible b xs
    → AllAdmissible (evolve_all b xs) ys
    → AllAdmissible b (xs ++ ys)
unfolding evolve_all
append-AllAdmissible b [] ys a d = d
append-AllAdmissible b (x ∷ xs) ys a d = (a.0, append-AllAdmissible (evolve b x) xs ys a.1 d)

abbrev Fits : Org → Result (List Event) → Type 0
Fits s r = AllAdmissible s (events_of r)

if-Fits :
    (s : Org) (t : Bool) (x y : Result (List Event))
    → Fits s x
    → Fits s y
    → Fits s (if t then x else y)
if-Fits s true x y hx hy = hx
if-Fits s false x y hx hy = hy

remove-Fits : (s : Org) (sub : String) (o : Option String) → Fits s (decide_remove s sub o)
unfolding decide_remove
remove-Fits s sub none = tt
remove-Fits s sub (some role) =
    if-Fits s (is_owner role && leb (owner_count s) 1) (err last_owner)
      (ok (member_removed sub ∷ [])) tt (tt, tt)

archive-Fits :
    (s : Org) (id : String) (o : Option Project)
    → lookup id s.projects ≡ o
    → Fits s (decide_archive id o)
unfolding decide_archive
archive-Fits s id none e = tt
archive-Fits s id (some p) e =
    if-Fits s p.archived (ok []) (ok (project_archived id ∷ [])) tt (rw e refl, tt)

create_project-Fits :
    (s : Org) (id name : String) (o : Option Project)
    → lookup id s.projects ≡ o
    → Fits s (if is_some o then err already_exists else ok (project_created id name ∷ []))
create_project-Fits s id name none e = (e, tt)
create_project-Fits s id name (some p) e = tt

-- What `Decide` emits is admissible.
decide-Fits : (s : Org) (c : Command) → Fits s (decide s c)
unfolding decide decide_upsert
decide-Fits s (create c) =
    if-Fits s (absent s) (ok (created c ∷ [])) (err already_exists) (tt, tt) tt
decide-Fits s (rename name) =
    if-Fits s (absent s) (err not_found) (ok (renamed name ∷ [])) tt (tt, tt)
decide-Fits s (Command.upsert_member sub role) =
    if-Fits s (absent s) (err not_found) (decide_upsert s sub role) tt (
      if-Fits s (not (valid_roles role)) (err invalid_role) _ tt (
        if-Fits s
          (holds_owner (lookup sub s.members) && (not (is_owner role) && leb (owner_count s) 1))
          (err last_owner) (ok (member_upserted sub role ∷ [])) tt (tt, tt)))
decide-Fits s (Command.remove_member sub) =
    if-Fits s (absent s) (err not_found) (decide_remove s sub (lookup sub s.members)) tt
      (remove-Fits s sub (lookup sub s.members))
decide-Fits s (create_project id name) =
    if-Fits s (absent s) (err not_found) _ tt
      (create_project-Fits s id name (lookup id s.projects) refl)
decide-Fits s (archive_project id) =
    if-Fits s (absent s) (err not_found) (decide_archive id (lookup id s.projects)) tt
      (archive-Fits s id (lookup id s.projects) refl)
decide-Fits s unset = tt

-- `base` is the aggregate up to the last projected event: the rows show it, and the pending events,
-- which `Decide` allowed, lead from it to the aggregate as it is.
pub record Follows (id : String) (old : MemReadStore) (base : Org) (w : OrgWorld) : Type 0 where
  pub leads : evolve_all base w.pending ≡ w.org
  pub allowed : AllAdmissible base w.pending
  pub shown : RowsShow id old base w.rows

events_of-after : (s : Org) (r : Result (List Event)) → after s r ≡ evolve_all s (events_of r)
unfolding evolve_all
events_of-after s (ok es) = refl
events_of-after s (err x) = refl

module _ (id : String) (old : MemReadStore) where
  command-Follows :
      (base : Org) (w : OrgWorld) (c : Command)
      → Follows id old base w
      → Follows id old base (org_step id w (command c))
  unfolding org_step handle
  command-Follows base w c h = record {
    leads =
        evolve_all-append base w.pending (events_of (decide w.org c))
        ∙ ap (λ o. evolve_all o (events_of (decide w.org c))) h.leads
        ∙ sym (events_of-after w.org (decide w.org c));
    allowed = append-AllAdmissible base w.pending (events_of (decide w.org c)) h.allowed (
        subst (λ o. AllAdmissible o (events_of (decide w.org c))) (sym h.leads)
          (decide-Fits w.org c));
    shown = h.shown;
  }

  next_base : Org → List Event → Org
  next_base base [] = base
  next_base base (e ∷ es) = evolve base e

  project-Follows :
      (base o : Org) (pending : List Event) (s : MemReadStore)
      → Follows id old base (record { org = o; pending = pending; rows = s })
      → Follows id old
          (next_base base pending)
          (org_step id (record { org = o; pending = pending; rows = s }) project)
  unfolding org_step next_base evolve_all
  project-Follows base o [] s h = h
  project-Follows base o (e ∷ es) s h = record {
    leads = h.leads;
    allowed = h.allowed.1;
    shown =
        subst (λ now. RowsShow id old (evolve base e) (apply_org id e (some now) s []).0) h.leads
          (apply_org-RowsShow id old base s h.shown e es h.allowed.0 h.allowed.1);
  }

  org_steps-Follows :
      (base : Org) (w : OrgWorld) (steps : List OrgStep)
      → Follows id old base w
      → (b : Org) × Follows id old b (org_steps id w steps)
  unfolding org_steps
  org_steps-Follows base w [] h = (base, h)
  org_steps-Follows base w (command c ∷ ts) h =
      org_steps-Follows base (org_step id w (command c)) ts (command-Follows base w c h)
  org_steps-Follows base w (project ∷ ts) h =
      org_steps-Follows (next_base base w.pending) (org_step id w project) ts
        (project-Follows base w.org w.pending w.rows h)

  caught_up :
      (base : Org) (w : OrgWorld)
      → w.pending ≡ []
      → Follows id old base w
      → RowsShow id old w.org w.rows
  unfolding evolve_all
  caught_up base w none_left h =
      subst (λ o. RowsShow id old o w.rows)
        (subst (λ p. evolve_all base p ≡ w.org) none_left h.leads) h.shown

  -- Let the rows show the aggregate with no event pending. After any interleaving of commands and
  -- projected events that again leaves none pending, the rows show the aggregate as it then is: the
  -- name of a created org, every member with the role, every project with its name and archived
  -- flag, and nothing else. No row of another org changes.
  pub org_steps-RowsShow :
      (o : Org) (s : MemReadStore) (steps : List OrgStep)
      → RowsShow id old o s
      → (org_steps id (record { org = o; pending = []; rows = s }) steps).pending ≡ []
      → let w = org_steps id (record { org = o; pending = []; rows = s }) steps in
        RowsShow id old w.org w.rows
  unfolding evolve_all
  org_steps-RowsShow o s steps h none_left =
      let w : OrgWorld = record { org = o; pending = []; rows = s } in
      let end = org_steps-Follows o w steps (record { leads = refl; allowed = tt; shown = h }) in
      caught_up end.0 (org_steps id w steps) none_left end.1
