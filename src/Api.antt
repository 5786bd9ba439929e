-- ===== src/Api.antt =====
-- How the endpoints answer (backend/app/api/v1/workflow_errors.py and workflows.py). The texts of
-- error messages are left out. A request has passed authentication and the validation of its
-- payload; its session starts with the rows that are committed.
pub mod Endpoints
pub mod Answers
pub mod Conflicts
mod Examples
use graduation_project.Prelude.{ℕ, String, Option, none, some, List, [], ◌∷◌, map, if◌then◌else◌}
use graduation_project.Json.{Dict, text, array, Items, nil, cons, empty, entry}
use graduation_project.Json.Equality.{sorted}
use graduation_project.Lifecycle.{WorkflowStatus, InvalidTransition, status_value}
use graduation_project.Stage.{RuntimeStage, stage_value}
use graduation_project.Store.{
  Session, Error, Result, ok, err, Action, workflow_not_found, event_not_found, state_mismatch,
  invalid_transition, permission_denied, duplicate_final_decision, terminal_state, invalid_state,
  resume_not_allowed, precondition_failed, node_failed,
}
use graduation_project.Approval.Service.{User}
use graduation_project.Approval.Roles.{RoleName, require_roles}

pub record HttpError : Type 0 where
  pub status_code : ℕ
  pub code : String
  pub details : Dict

-- What the client gets: a body, an `HTTPException` of the endpoint, the 403 of the role guard, or
-- the application's 500 for an exception that nothing catches.
pub data Answer (B : Type 0) : Type 0 where
  body : B → Answer B
  http : HttpError → Answer B
  forbidden : Answer B
  unhandled : Error → Answer B

abbrev pub Endpoint : Type 0 → Type 0
Endpoint B = Session → Answer B × Session

abbrev pub texts : List String → Items
texts [] = nil
texts (x ∷ xs) = cons (text x) (texts xs)

abbrev pub transition_details : InvalidTransition → Dict
transition_details e = entry "from_status" (text (status_value e.from_status)) (
    entry "to_status" (text (status_value e.to_status)) (
      entry "allowed_statuses" (array (texts (sorted (map status_value e.allowed_statuses))))
        empty))

abbrev plain : ℕ → String → HttpError
plain status_code code = record { status_code = status_code; code = code; details = empty }

unfoldable pub map_workflow_exception : Error → Option HttpError
map_workflow_exception (workflow_not_found i) = some (plain 404 "workflow_not_found")
map_workflow_exception (event_not_found i) = some (plain 404 "workflow_event_not_found")
map_workflow_exception (invalid_transition e) = some (record {
  status_code = 409;
  code = "invalid_workflow_transition";
  details = transition_details e;
})
map_workflow_exception state_mismatch = some (plain 400 "workflow_state_mismatch")
map_workflow_exception e = none

abbrev conflict_code : Error → String
conflict_code (invalid_state st) = "approval_invalid_state"
conflict_code (terminal_state st) = "approval_terminal_state"
conflict_code duplicate_final_decision = "approval_duplicate_final_decision"
conflict_code (invalid_transition e) = "invalid_workflow_transition"
conflict_code (resume_not_allowed st) = "workflow_resume_not_allowed"
conflict_code e = "approval_lifecycle_conflict"

unfoldable pub approval_conflict_http_exception : Error → HttpError
approval_conflict_http_exception e = plain 409 (conflict_code e)

abbrev pub approval_forbidden_http_exception : HttpError
approval_forbidden_http_exception = plain 403 "approval_forbidden"

abbrev pub resume_failed : RuntimeStage → HttpError
resume_failed stage = record {
  status_code = 500;
  code = "workflow_runtime_resume_failed";
  details = entry "failed_stage" (text (stage_value stage)) empty;
}

abbrev pub run_refused : HttpError
run_refused = plain 409 "workflow_runtime_precondition_failed"

-- `get_db_session` closes the session when the request ends, and what was not committed is rolled
-- back. What a publisher was handed is out already.
unfoldable pub closed : Session → Session → Session
closed before after = record after {
  workflows = before.workflows;
  events = before.events;
  audit_logs = before.audit_logs;
}

abbrev pub caught : {B : Type 0} → Error → Option HttpError → Answer B
caught e none = unhandled e
caught e (some h) = http h

module _ {A B : Type 0} where
  abbrev pub answered : (Error → Option HttpError) → (A → B) → Session → Result A → Endpoint B
  answered except response before (ok a) after = (body (response a), after)
  answered except response before (err e) after = (caught e (except e), closed before after)

  -- `try: … = await service(…) except …: raise …`, then `await session.commit()` and the body.
  unfoldable pub respond : (Error → Option HttpError) → (A → B) → Action A → Endpoint B
  respond except response action s = let (r, t) = action s in answered except response s r t

  -- An endpoint that reads: it commits nothing.
  unfoldable pub respond_read : (Error → Option HttpError) → (A → B) → Action A → Endpoint B
  respond_read except response action s =
      let (answer, t) = respond except response action s in (answer, closed s t)

-- `Depends(require_roles(…))`
unfoldable pub guarded : {B : Type 0} → List RoleName → User → Endpoint B → Endpoint B
guarded roles user endpoint s =
    if require_roles roles user.role_names then endpoint s else (forbidden, s)
