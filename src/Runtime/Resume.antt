-- ===== src/Runtime/Resume.antt =====
-- backend/app/runtime/service.py: `resume_workflow_after_approval`.
use graduation_project.Prelude.{true, false, Option, none, some}
use graduation_project.Json.{Json, Dict, null, bool, text, array, object, empty, entry, put, update}
use graduation_project.Lifecycle.{WorkflowStatus, generating_email, status_value}
use graduation_project.Lifecycle
use graduation_project.Stage.{email_preparation, stage_value}
use graduation_project.Schema.{Uuid, WorkflowState, started, completed, failed}
use graduation_project.Schema.Approval.{WorkflowResumeRequest}
use graduation_project.Store.{
  Platform, Error, Action, workflow_not_found, validation_failed, node_failed, lift, pure, raise,
  or_raise, ◌>>=◌, ◌>>◌,
}
use graduation_project.Workflows.Audit.{optional_text}
use graduation_project.Workflows.Service.{
  Actor, get_workflow, transition_workflow_status, update_workflow_state,
}
use graduation_project.Workflows.Events.{Publisher}
use graduation_project.Approval.Rules.{validate_resume_allowed}
use graduation_project.Approval.Payload.{approval_records_from_payload}
use graduation_project.Approval.Sanitize.{safe_resume_metadata}
use graduation_project.Runtime.{RuntimeWorkflowResult, post_approval_runtime_stages}
use graduation_project.Runtime.Convert.{
  workflow_state_to_runtime_state, runtime_state_to_workflow_state, stage_values,
}
use graduation_project.Runtime.Graph.{Engine, build_workflow_graph}
use graduation_project.Runtime.Report.{safe_runtime_error_payload, append_runtime_event}
use graduation_project.Runtime.Stages.{
  RuntimeService, Progress, Outcome, going, broke, parsed, payload_with_status, run_resumed_stage,
}
use graduation_project.Runtime.Service.{handle_runtime_failure}

-- `request or WorkflowResumeRequest()`
abbrev pub request_or_default : Option WorkflowResumeRequest → WorkflowResumeRequest
request_or_default none = record { request_id = none; metadata = empty }
request_or_default (some request) = request

module _ (E : Engine) (P : Platform) (publisher : Publisher) where
  abbrev id_text : Option Uuid → Json
  id_text none = null
  id_text (some u) = text (P.uuid_str u)

  module _ (i : Uuid) (actor : Actor) (request : WorkflowResumeRequest) where
    -- The `resume_state` entry of the runtime context.
    abbrev pub resume_state : Dict
    resume_state = entry "resumed" (bool true) (
        entry "resumed_by" (id_text actor.actor_id) (
          entry "request_id" (optional_text request.request_id)
            (entry "completed_stages" (array (stage_values post_approval_runtime_stages)) empty)))

    abbrev pub with_resume_state : WorkflowState → WorkflowState
    with_resume_state w = record w {
      runtime_context = put "resume_state" (object resume_state) w.runtime_context;
    }

    -- From the end of the stage on.
    unfoldable pub finish_resume : Progress → Action RuntimeWorkflowResult
    finish_resume p = do
      done ←
          transition_workflow_status P i Lifecycle.completed actor
            (some "Runtime resume completed post-approval continuation.")
      state ← lift (parsed E p.payload)
      let final = record state { status = done.status }
      update_workflow_state P i (with_resume_state (runtime_state_to_workflow_state final done))
          actor (some "Runtime persisted post-approval resume state.")
      append_runtime_event P publisher i actor "workflow.resumed" completed
          "Workflow resume completed."
          (entry "status" (text (status_value Lifecycle.completed)) (
            entry "request_id" (optional_text request.request_id)
              (entry "completed_stages" (array (stage_values post_approval_runtime_stages)) empty)))
      pure (record {
        state = final;
        completed = true;
        failed = false;
        message = some "Workflow resume completed.";
      })

    unfoldable pub settle_resume : Outcome → Action RuntimeWorkflowResult
    settle_resume (going p) = finish_resume p
    settle_resume (broke stage p e) = do
      handle_runtime_failure E P publisher i actor stage p e
      append_runtime_event P publisher i actor "workflow.resume_failed" failed
          "Workflow resume failed."
          (update
            (entry "failed_stage" (text (stage_value stage)) (
              entry "status" (text (status_value generating_email))
                (entry "request_id" (optional_text request.request_id) empty)))
            (safe_runtime_error_payload e))
      raise (node_failed stage e)

    -- Where the resume is allowed.
    unfoldable pub carry_on : RuntimeService → WorkflowState → Action RuntimeWorkflowResult
    carry_on R w = do
      append_runtime_event P publisher i actor "workflow.resume_requested" started
          "Workflow resume requested after approval."
          (entry "status" (text (status_value w.status)) (
            entry "request_id" (optional_text request.request_id)
              (entry "metadata" (object (safe_resume_metadata P.lower request.metadata)) empty)))
      current ←
          transition_workflow_status P i generating_email actor
            (some "Runtime resume entered email preparation stage.")
      state ← lift (workflow_state_to_runtime_state P.lower current)
      payload ← lift (payload_with_status E (E.dump_runtime state) generating_email)
      stream ← lift (build_workflow_graph E R.node_handlers (some post_approval_runtime_stages))
      o ←
          run_resumed_stage E R P publisher i actor (stream payload) email_preparation
            generating_email (record { current = current; payload = payload; position = 0 })
      settle_resume o

    -- What `validate_resume_allowed` decides.
    unfoldable pub resume_found :
        RuntimeService → WorkflowState → Option Error → Action RuntimeWorkflowResult
    resume_found R w none = carry_on R w
    resume_found R w (some e) = do
      append_runtime_event P publisher i actor "workflow.resume_failed" failed
          "Workflow resume was not allowed."
          (entry "status" (text (status_value w.status))
            (entry "request_id" (optional_text request.request_id) empty))
      raise e

    unfoldable pub resume_workflow : RuntimeService → Action RuntimeWorkflowResult
    resume_workflow R = do
      found ← get_workflow P i
      w ← or_raise (workflow_not_found i) found
      records ← or_raise validation_failed (approval_records_from_payload P w.approval)
      resume_found R w (validate_resume_allowed w.status records)

  -- `resume_workflow_after_approval`
  unfoldable pub resume_workflow_after_approval :
      RuntimeService → Uuid → Option WorkflowResumeRequest → Actor → Action RuntimeWorkflowResult
  unfolding resume_workflow
  resume_workflow_after_approval R i request actor =
      resume_workflow i actor (request_or_default request) R
