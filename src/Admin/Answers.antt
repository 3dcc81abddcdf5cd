-- ===== src/Admin/Answers.antt =====
-- What the handlers of internal/controlplane/admin.go that write answer once the command has gone to
-- an aggregate: handleWithRetry, writeAggregateError and the bodies. How the runtime of es-lite ends a
-- Handle is an argument.
pub mod Written
use inferbus.Base.{List, Option, String, [], false, none, some, ℕ, ◌∷◌}
use inferbus.Base.{string_eq}
use inferbus.Dict.{Dict, lookup}
use inferbus.Org as O
use inferbus.ApiKey as K
use inferbus.Alias as A
use inferbus.ReadModel.{member_rows, sort_by}
use inferbus.Text.{codes}
use inferbus.Admin.Reads.{KeyResponse, OrgResponse, ProjectResponse, org}

-- The end of one `Handle`: the new state, the decider's error, es.ErrConflict, or another error.
pub data Handled (S X : Type 0) : Type 0 where
  handled : S → Handled S X
  rejected : X → Handled S X
  conflict broken : Handled S X

-- `handleWithRetry`: the second `Handle` is called only after a conflict.
unfoldable pub handle_with_retry : {S X : Type 0} → Handled S X → Handled S X → Handled S X
handle_with_retry conflict again = again
handle_with_retry (handled s) again = handled s
handle_with_retry (rejected x) again = rejected x
handle_with_retry broken again = broken

-- A status with an error type, or with the body of a success.
pub data Answer : Type 0 where
  refused : ℕ → String → Answer
  no_content : ℕ → Answer
  org_body : ℕ → OrgResponse → Answer
  project_body : ℕ → ProjectResponse → Answer
  key_body : ℕ → KeyResponse → Answer
  alias_body : ℕ → String → String → String → Dict String String → Answer

-- `writeAggregateError`, for the errors of each decider.
abbrev pub org_error : O.Error → Answer
org_error O.already_exists = refused 409 "conflict_error"
org_error O.not_found = refused 404 "not_found_error"
org_error O.no_such_project = refused 404 "not_found_error"
org_error O.last_owner = refused 409 "conflict_error"
org_error O.invalid_role = refused 400 "invalid_request_error"
org_error O.unknown_command = refused 500 "internal_error"

abbrev pub key_error : K.Error → Answer
key_error K.already_exists = refused 409 "conflict_error"
key_error K.not_found = refused 404 "not_found_error"
key_error K.key_is_disabled = refused 409 "conflict_error"
key_error K.unknown_command = refused 500 "internal_error"

abbrev pub alias_error : A.Error → Answer
alias_error A.invalid_target = refused 400 "invalid_request_error"
alias_error (A.reserved_param k) = refused 400 "invalid_request_error"
alias_error A.unknown_command = refused 500 "internal_error"

abbrev pub answer_with : {S X : Type 0} → (X → Answer) → (S → Answer) → Handled S X → Answer
answer_with error body (handled s) = body s
answer_with error body (rejected x) = error x
answer_with error body conflict = refused 409 "conflict_error"
answer_with error body broken = refused 500 "internal_error"

project_row : O.Project → ProjectResponse
project_row p = record { id = p.id; name = p.name; archived = p.archived }

project_rows : Dict String O.Project → List ProjectResponse
unfolding project_row
project_rows [] = []
project_rows ((id, p) ∷ m) = project_row p ∷ project_rows m

-- `orgResponseFromState`
unfoldable pub org_response_from_state : O.Org → OrgResponse
unfolding project_rows
org_response_from_state s = record {
  id = s.id;
  name = s.name;
  members = sort_by (λ m. codes m.sub) (member_rows s.members);
  projects = sort_by (λ p. codes p.id) (project_rows s.projects);
}

-- `keyResponseFromState`
unfoldable pub key_response_from_state : K.ApiKey → KeyResponse
key_response_from_state s = record {
  id = s.id;
  org = s.org;
  project = s.project;
  name = s.name;
  allow = s.allow;
  rate_limit_rpm = s.rate_limit_rpm;
  monthly_token_budget = s.monthly_token_budget;
  disabled = s.disabled;
  key = "";
}

-- `res.State.GetProjects()[id]`, whose getters read a nil project as the empty one.
one_project : Option O.Project → ProjectResponse
unfolding project_row
one_project none = record { id = ""; name = ""; archived = false }
one_project (some p) = project_row p

-- The answer to the org command that was sent, once the aggregate is in the state `s`.
unfoldable pub org_answer : O.Command → O.Org → Answer
unfolding one_project
org_answer (O.create c) s = org_body 201 (org_response_from_state s)
org_answer (O.rename name) s = org_body 200 (org_response_from_state s)
org_answer (O.Command.upsert_member sub role) s = org_body 200 (org_response_from_state s)
org_answer (O.Command.remove_member sub) s = no_content 204
org_answer (O.create_project id name) s = project_body 201 (one_project (lookup id s.projects))
org_answer (O.archive_project id) s = project_body 200 (one_project (lookup id s.projects))
org_answer O.Command.unset s = refused 500 "internal_error"

-- The answer to the key command; `plaintext` is what GenerateKey made for it.
unfoldable pub key_answer : String → K.Command → K.ApiKey → Answer
key_answer plaintext (K.create c) s =
    key_body 201 (record (key_response_from_state s) { key = plaintext })
key_answer plaintext (K.rotate hash) s =
    key_body 200 (record (key_response_from_state s) { key = plaintext })
key_answer plaintext K.disable s = key_body 200 (key_response_from_state s)
key_answer plaintext (K.set_allowlist allow) s = key_body 200 (key_response_from_state s)
key_answer plaintext (K.set_limits rpm budget) s = key_body 200 (key_response_from_state s)
key_answer plaintext K.Command.unset s = refused 500 "internal_error"

unfoldable pub alias_answer : String → String → A.Command → A.Alias → Answer
alias_answer scope name (A.set target params) s = alias_body 200 scope name s.target s.params
alias_answer scope name A.delete_alias s = no_content 204
alias_answer scope name A.Command.unset s = refused 500 "internal_error"

-- The rest of each handler.
unfoldable pub finish_org : O.Command → Handled O.Org O.Error → Handled O.Org O.Error → Answer
finish_org c first again = answer_with org_error (org_answer c) (handle_with_retry first again)

unfoldable pub finish_key :
    String → K.Command → Handled K.ApiKey K.Error → Handled K.ApiKey K.Error → Answer
finish_key plaintext c first again =
    answer_with key_error (key_answer plaintext c) (handle_with_retry first again)

unfoldable pub finish_alias :
    String → String → A.Command → Handled A.Alias A.Error → Handled A.Alias A.Error → Answer
finish_alias scope name c first again =
    answer_with alias_error (alias_answer scope name c) (handle_with_retry first again)
