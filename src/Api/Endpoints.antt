-- ===== src/Api/Endpoints.antt =====
-- The endpoints of backend/app/api/v1/workflows.py. The role guard names the roles that each asks
-- for; the actor of a write is the current user.
use graduation_project.Prelude.{ℕ, String, Bool, Option, none, some, List, map, length, not, ◌&&◌}
use graduation_project.Lifecycle.{WorkflowStatus, approved, waiting_approval, same_status}
use graduation_project.Stage.{stage_value}
use graduation_project.Schema.{Uuid, WorkflowState, WorkflowStateCreate, WorkflowEvent}
use graduation_project.Schema.Approval.{
  ApprovalDecisionRequest, ApprovalDecisionResponse, ApprovalHistoryResponse, WorkflowResumeRequest,
}
use graduation_project.Store.{
  Platform, Error, workflow_not_found, state_mismatch, invalid_transition, permission_denied,
  duplicate_final_decision, terminal_state, invalid_state, resume_not_allowed, precondition_failed,
  node_failed, or_raise, ◌>>=◌,
}
use graduation_project.Workflows.Service.{
  Actor, create_workflow, get_workflow, list_workflows, transition_workflow_status,
  update_workflow_state,
}
use graduation_project.Workflows.Events.{Publisher, list_events_for_workflow}
use graduation_project.Approval.Service.{User, get_approval_history, submit_approval_decision}
use graduation_project.Approval.Roles.{
  workflow_full_access_roles, workflow_create_roles, workflow_read_roles,
}
use graduation_project.Runtime.{RuntimeWorkflowResult}
use graduation_project.Runtime.Graph.{Engine}
use graduation_project.Runtime.Stages.{RuntimeService}
use graduation_project.Runtime.Service.{run_workflow}
use graduation_project.Runtime.Resume.{resume_workflow_after_approval}
use graduation_project.Api.{
  HttpError, Endpoint, map_workflow_exception, approval_conflict_http_exception,
  approval_forbidden_http_exception, resume_failed, run_refused, respond, respond_read, guarded,
}

pub record WorkflowListResponse : Type 0 where
  pub workflows : List WorkflowState
  pub count : ℕ
  pub limit : ℕ
  pub offset : ℕ
  pub status : Option WorkflowStatus

pub record WorkflowEventListResponse : Type 0 where
  pub events : List WorkflowEvent
  pub count : ℕ
  pub limit : ℕ
  pub offset : ℕ

pub record WorkflowResumeResponse : Type 0 where
  pub workflow_id : Uuid
  pub previous_status : WorkflowStatus
  pub next_status : WorkflowStatus
  pub resumed : Bool
  pub message : Option String
  pub request_id : Option String

pub record WorkflowRunResponse : Type 0 where
  pub result : RuntimeWorkflowResult
  pub workflow_id : String
  pub status : WorkflowStatus
  pub completed_stages : List String
  pub waiting_for_approval : Bool
  pub completed : Bool
  pub failed : Bool
  pub message : Option String

abbrev pub from_runtime_result : RuntimeWorkflowResult → WorkflowRunResponse
from_runtime_result result = record {
  result = result;
  workflow_id = result.state.workflow_id;
  status = result.state.status;
  completed_stages = map stage_value result.state.completed_stages;
  waiting_for_approval = same_status result.state.status waiting_approval;
  completed = result.completed;
  failed = result.failed;
  message = result.message;
}

abbrev pub resume_response :
    Uuid → WorkflowResumeRequest → RuntimeWorkflowResult → WorkflowResumeResponse
resume_response i payload result = record {
  workflow_id = i;
  previous_status = approved;
  next_status = result.state.status;
  resumed = result.completed && not result.failed;
  message = result.message;
  request_id = payload.request_id;
}

-- The except clauses, endpoint by endpoint.
abbrev pub uncaught : Error → Option HttpError
uncaught e = none

abbrev pub except_not_found : Error → Option HttpError
except_not_found (workflow_not_found i) = map_workflow_exception (workflow_not_found i)
except_not_found e = none

abbrev pub except_transition : Error → Option HttpError
except_transition (invalid_transition e) = map_workflow_exception (invalid_transition e)
except_transition (workflow_not_found i) = map_workflow_exception (workflow_not_found i)
except_transition e = none

abbrev pub except_update : Error → Option HttpError
except_update (workflow_not_found i) = map_workflow_exception (workflow_not_found i)
except_update state_mismatch = map_workflow_exception state_mismatch
except_update e = none

abbrev pub except_approval : Error → Option HttpError
except_approval (invalid_state st) = some (approval_conflict_http_exception (invalid_state st))
except_approval (terminal_state st) = some (approval_conflict_http_exception (terminal_state st))
except_approval duplicate_final_decision =
    some (approval_conflict_http_exception duplicate_final_decision)
except_approval (invalid_transition e) =
    some (approval_conflict_http_exception (invalid_transition e))
except_approval permission_denied = some approval_forbidden_http_exception
except_approval (workflow_not_found i) = map_workflow_exception (workflow_not_found i)
except_approval e = none

abbrev pub except_resume : Error → Option HttpError
except_resume (workflow_not_found i) = map_workflow_exception (workflow_not_found i)
except_resume (resume_not_allowed st) =
    some (approval_conflict_http_exception (resume_not_allowed st))
except_resume (invalid_transition e) =
    some (approval_conflict_http_exception (invalid_transition e))
except_resume (node_failed stage e) = some (resume_failed stage)
except_resume e = none

abbrev pub except_run : Error → Option HttpError
except_run (workflow_not_found i) = map_workflow_exception (workflow_not_found i)
except_run precondition_failed = some run_refused
except_run e = none

abbrev pub actor_of : User → Actor
actor_of user = record { actor_type = some "user"; actor_id = some user.id }

module _ (P : Platform) (publisher : Publisher) (E : Engine) (user : User) where
  unfoldable pub post_workflow : WorkflowStateCreate → Endpoint WorkflowState
  post_workflow payload =
      guarded workflow_create_roles user
        (respond uncaught (λ w. w) (create_workflow P payload (some user.id)))

  unfoldable pub get_workflows : Option WorkflowStatus → ℕ → ℕ → Endpoint WorkflowListResponse
  get_workflows status limit offset = guarded workflow_read_roles user (
      respond_read uncaught
        (λ ws. record {
          workflows = ws;
          count = length ws;
          limit = limit;
          offset = offset;
          status = status;
        })
        (list_workflows P status none limit offset))

  unfoldable pub get_one : Uuid → Endpoint WorkflowState
  get_one i = guarded workflow_read_roles user (
      respond_read except_not_found (λ w. w)
        (get_workflow P i >>= λ found. or_raise (workflow_not_found i) found))

  unfoldable pub post_transition : Uuid → WorkflowStatus → Option String → Endpoint WorkflowState
  post_transition i to_status reason = guarded workflow_full_access_roles user (
      respond except_transition (λ w. w)
        (transition_workflow_status P i to_status (actor_of user) reason))

  unfoldable pub patch_state : Uuid → WorkflowState → Option String → Endpoint WorkflowState
  patch_state i state reason =
      guarded workflow_full_access_roles user
        (respond except_update (λ w. w) (update_workflow_state P i state (actor_of user) reason))

  unfoldable pub get_events : Uuid → ℕ → ℕ → Endpoint WorkflowEventListResponse
  get_events i limit offset = guarded workflow_read_roles user (
      respond_read except_not_found
        (λ es. record { events = es; count = length es; limit = limit; offset = offset })
        (list_events_for_workflow i limit offset))

  unfoldable pub post_approval : Uuid → ApprovalDecisionRequest → Endpoint ApprovalDecisionResponse
  post_approval i payload =
      guarded workflow_full_access_roles user
        (respond except_approval (λ r. r) (submit_approval_decision P publisher i payload user))

  unfoldable pub approval_history : Uuid → Endpoint ApprovalHistoryResponse
  approval_history i =
      guarded workflow_read_roles user
        (respond_read except_not_found (λ r. r) (get_approval_history P i))

  unfoldable pub post_resume :
      RuntimeService → Uuid → WorkflowResumeRequest → Endpoint WorkflowResumeResponse
  post_resume R i payload = guarded workflow_full_access_roles user (
      respond except_resume (resume_response i payload)
        (resume_workflow_after_approval E P publisher R i (some payload) (actor_of user)))

  unfoldable pub post_run : RuntimeService → Uuid → Endpoint WorkflowRunResponse
  post_run R i =
      guarded workflow_full_access_roles user
        (respond except_run from_runtime_result (run_workflow E P publisher i (actor_of user) R))
