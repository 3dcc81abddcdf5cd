-- ===== src/Admin/Answers/Written.antt =====
-- The answers to writes of internal/controlplane/admin.go against the aggregates.
use inferbus.Base.{
  Bool-cases, List, Option, String, arith, false, inl, inr, none, refl, some, true, ◌≡◌,
}
use inferbus.Base.{string_eq}
use inferbus.Dict.{lookup, lookup-insert_self}
use inferbus.Org as O
use inferbus.ApiKey as K
use inferbus.Admin.{role_among}
use inferbus.Admin.Current.{role_among-member_rows}
use inferbus.Admin.Answers.{
  Answer, Handled, answer_with, broken, conflict, finish_key, finish_org, handle_with_retry,
  handled, key_answer, key_body, key_error, key_response_from_state, no_content, one_project,
  org_answer, org_body, org_error, org_response_from_state, project_body, refused, rejected,
}

-- What es-lite documents of Handle: it decides on the state that it has loaded and folds the events,
-- or fails on a conflicting append or for another reason.
abbrev org_outcome : O.Org → O.Result (List O.Event) → Handled O.Org O.Error
org_outcome s (O.ok es) = handled (O.evolve_all s es)
org_outcome s (O.err x) = rejected x

abbrev pub HandlesOrg : O.Org → O.Command → Handled O.Org O.Error → Type 0
HandlesOrg s c (handled t) = org_outcome s (O.decide s c) ≡ handled t
HandlesOrg s c (rejected x) = org_outcome s (O.decide s c) ≡ rejected x
HandlesOrg s c conflict = Unit {0}
HandlesOrg s c broken = Unit {0}

abbrev key_outcome : K.ApiKey → K.Result (List K.Event) → Handled K.ApiKey K.Error
key_outcome s (K.ok es) = handled (K.evolve_all s es)
key_outcome s (K.err x) = rejected x

abbrev pub HandlesKey : K.ApiKey → K.Command → Handled K.ApiKey K.Error → Type 0
HandlesKey s c (handled t) = key_outcome s (K.decide s c) ≡ handled t
HandlesKey s c (rejected x) = key_outcome s (K.decide s c) ≡ rejected x
HandlesKey s c conflict = Unit {0}
HandlesKey s c broken = Unit {0}

-- The body of a success shows what was asked for.
abbrev pub ShowsOrg : O.Command → Answer → Type 0
ShowsOrg c (refused status kind) = Unit {0}
ShowsOrg (O.create c) (org_body status o) =
    (o.id ≡ c.id) × (o.name ≡ c.name) × (role_among c.owner_sub o.members ≡ "owner")
ShowsOrg (O.rename name) (org_body status o) = o.name ≡ name
ShowsOrg (O.Command.upsert_member sub role) (org_body status o) = role_among sub o.members ≡ role
ShowsOrg (O.Command.remove_member sub) (no_content status) = Unit {0}
ShowsOrg (O.create_project id name) (project_body status p) =
    (p.id ≡ id) × (p.name ≡ name) × (p.archived ≡ false)
ShowsOrg (O.archive_project id) (project_body status p) = p.archived ≡ true
ShowsOrg c answer = ⊥

-- The plaintext stands in the answers to a creation and a rotation only.
abbrev pub ShowsKey : String → K.Command → Answer → Type 0
ShowsKey plaintext c (refused status kind) = Unit {0}
ShowsKey plaintext (K.create c) (key_body status k) =
    (k.key ≡ plaintext) × (k.org ≡ c.org) × (k.project ≡ c.project) × (k.allow ≡ c.allow)
ShowsKey plaintext (K.rotate hash) (key_body status k) = k.key ≡ plaintext
ShowsKey plaintext K.disable (key_body status k) = (k.key ≡ "") × (k.disabled ≡ true)
ShowsKey plaintext (K.set_allowlist allow) (key_body status k) = (k.key ≡ "") × (k.allow ≡ allow)
ShowsKey plaintext (K.set_limits rpm budget) (key_body status k) =
    (k.key ≡ "") × (k.rate_limit_rpm ≡ rpm) × (k.monthly_token_budget ≡ budget)
ShowsKey plaintext c answer = ⊥

archived_shown :
    (s : O.Org) (id : String) (o : Option O.Project)
    → lookup id s.projects ≡ o
    → (t : O.Org) → org_outcome s (O.decide_archive id o) ≡ handled t
    → (one_project (lookup id t.projects)).archived ≡ true
unfolding O.decide_archive O.evolve_all O.evolve one_project
archived_shown s id none e t h = cc
archived_shown s id (some p) e t h =
    ground (arith, h, e, lookup-insert_self id (record p { archived = true }) s.projects)

org_shown :
    (s t : O.Org) (c : O.Command)
    → org_outcome s (O.decide s c) ≡ handled t
    → ShowsOrg c (org_answer c t)
unfolding O.decide O.evolve_all O.evolve org_answer org_response_from_state one_project
org_shown s t (O.create c) h = ground (
  arith,
  h,
  role_among-member_rows c.owner_sub t.members,
  lookup-insert_self c.owner_sub "owner" s.members,
)
org_shown s t (O.rename name) h = ground (arith, h)
org_shown s t (O.Command.upsert_member sub role) h =
    ground (arith, h, role_among-member_rows sub t.members, lookup-insert_self sub role s.members)
org_shown s t (O.Command.remove_member sub) h = tt
org_shown s t (O.create_project id name) h =
    ground (
      arith,
      h,
      lookup-insert_self id (record { id = id; name = name; archived = false }) s.projects,
    )
org_shown s t (O.archive_project id) h = elim (Bool-cases (O.absent s)) [
  | inl gone ↦ absurd (ground (arith, gone, h))
  | inr there ↦ archived_shown s id (lookup id s.projects) refl t (rw there at h)
]
org_shown s t O.Command.unset h = cc

key_shown :
    (plaintext : String) (s t : K.ApiKey) (c : K.Command)
    → key_outcome s (K.decide s c) ≡ handled t
    → ShowsKey plaintext c (key_answer plaintext c t)
unfolding K.decide K.evolve_all K.evolve key_answer key_response_from_state
key_shown plaintext s t (K.create c) h = ground (arith, h)
key_shown plaintext s t (K.rotate hash) h = refl
key_shown plaintext s t K.disable h = ground (arith, h)
key_shown plaintext s t (K.set_allowlist allow) h = ground (arith, h)
key_shown plaintext s t (K.set_limits rpm budget) h = ground (arith, h)
key_shown plaintext s t K.Command.unset h = cc

org_error_shown : (c : O.Command) (x : O.Error) → ShowsOrg c (org_error x)
org_error_shown c O.already_exists = tt
org_error_shown c O.not_found = tt
org_error_shown c O.no_such_project = tt
org_error_shown c O.last_owner = tt
org_error_shown c O.invalid_role = tt
org_error_shown c O.unknown_command = tt

key_error_shown :
    (plaintext : String) (c : K.Command) (x : K.Error) → ShowsKey plaintext c (key_error x)
key_error_shown plaintext c K.already_exists = tt
key_error_shown plaintext c K.not_found = tt
key_error_shown plaintext c K.key_is_disabled = tt
key_error_shown plaintext c K.unknown_command = tt

org_attempt :
    (s : O.Org) (c : O.Command) (h : Handled O.Org O.Error)
    → HandlesOrg s c h
    → ShowsOrg c (answer_with org_error (org_answer c) h)
org_attempt s c (handled t) h = org_shown s t c h
org_attempt s c (rejected x) h = org_error_shown c x
org_attempt s c conflict h = tt
org_attempt s c broken h = tt

key_attempt :
    (plaintext : String) (s : K.ApiKey) (c : K.Command) (h : Handled K.ApiKey K.Error)
    → HandlesKey s c h
    → ShowsKey plaintext c (answer_with key_error (key_answer plaintext c) h)
key_attempt plaintext s c (handled t) h = key_shown plaintext s t c h
key_attempt plaintext s c (rejected x) h = key_error_shown plaintext c x
key_attempt plaintext s c conflict h = tt
key_attempt plaintext s c broken h = tt

-- The body of a successful answer to a write of an org shows what was asked for, although the read
-- model may lag behind: a created org has its name and its owner, a renamed one its new name, a
-- member the role given, a project its id and name, and an archived one is archived. So it is also
-- when the first attempt met a concurrent write and the second ran on what that left.
pub finish_org-ShowsOrg :
    (s t : O.Org) (c : O.Command) (first again : Handled O.Org O.Error)
    → HandlesOrg s c first
    → HandlesOrg t c again
    → ShowsOrg c (finish_org c first again)
unfolding finish_org handle_with_retry
finish_org-ShowsOrg s t c (handled u) again h k = org_attempt s c (handled u) h
finish_org-ShowsOrg s t c (rejected x) again h k = org_error_shown c x
finish_org-ShowsOrg s t c conflict again h k = org_attempt t c again k
finish_org-ShowsOrg s t c broken again h k = tt

-- The answer to a write of a key holds the plaintext if the key was created or rotated, and in no
-- other case, and shows the fields that were set.
pub finish_key-ShowsKey :
    (plaintext : String) (s t : K.ApiKey) (c : K.Command) (first again : Handled K.ApiKey K.Error)
    → HandlesKey s c first
    → HandlesKey t c again
    → ShowsKey plaintext c (finish_key plaintext c first again)
unfolding finish_key handle_with_retry
finish_key-ShowsKey plaintext s t c (handled u) again h k = key_attempt plaintext s c (handled u) h
finish_key-ShowsKey plaintext s t c (rejected x) again h k = key_error_shown plaintext c x
finish_key-ShowsKey plaintext s t c conflict again h k = key_attempt plaintext t c again k
finish_key-ShowsKey plaintext s t c broken again h k = tt
