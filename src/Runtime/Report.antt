-- ===== src/Runtime/Report.antt =====
-- backend/app/runtime/service.py: the events that the runtime writes, and what they say of an
-- exception.
use graduation_project.Prelude.{
  String, Bool, true, false, not, Option, none, some, List, [], ◌∷◌, ◌==◌, if◌then◌else◌,
}
use graduation_project.Json.{
  Json, Dict, null, bool, text, empty, entry, get, put, update, is_empty, object,
}
use graduation_project.Lifecycle.{WorkflowStatus, status_value}
use graduation_project.Stage.{RuntimeStage, quotation, stage_value, same_stage}
use graduation_project.Schema.{Uuid, WorkflowEventCreate, EventStatus, failed}
use graduation_project.Store.{
  Platform, Error, Action, workflow_not_found, event_not_found, state_mismatch, validation_failed,
  invalid_transition, permission_denied, duplicate_final_decision, terminal_state, invalid_state,
  resume_not_allowed, precondition_failed, unknown_stage, node_failed, llm_error, raised_from,
  raised, ◌>>◌, pure,
}
use graduation_project.Llm.Contracts.{LlmProvider, LlmProviderError, category_value, provider_value}
use graduation_project.Workflows.Audit.{put_present}
use graduation_project.Workflows.Service.{Actor}
use graduation_project.Workflows.Events.{Publisher, append_event}

-- `type(exc).__name__`
abbrev pub error_type : Error → String
error_type (workflow_not_found i) = "WorkflowNotFoundError"
error_type (event_not_found i) = "WorkflowEventNotFoundError"
error_type state_mismatch = "WorkflowStateMismatchError"
error_type validation_failed = "ValidationError"
error_type (invalid_transition e) = "InvalidWorkflowTransitionError"
error_type permission_denied = "ApprovalPermissionDeniedError"
error_type duplicate_final_decision = "DuplicateFinalApprovalDecisionError"
error_type (terminal_state st) = "ApprovalTerminalStateError"
error_type (invalid_state st) = "ApprovalInvalidStateError"
error_type (resume_not_allowed st) = "ResumeNotAllowedError"
error_type precondition_failed = "WorkflowRuntimePreconditionError"
error_type unknown_stage = "RuntimeStateAdapterError"
error_type (node_failed stage e) = "WorkflowRuntimeNodeError"
error_type (llm_error e) = "LLMProviderError"
error_type (raised_from name e) = name
error_type (raised name) = name

-- The exception itself, or its cause, where that is a provider error.
abbrev provider_error : Error → Option LlmProviderError
provider_error (llm_error e) = some e
provider_error (raised_from name e) = some e
provider_error _ = none

abbrev provider_name : Option LlmProvider → Option String
provider_name none = none
provider_name (some p) = some (provider_value p)

abbrev llm_entries : Option LlmProviderError → Dict → Dict
llm_entries none d = d
llm_entries (some e) d = put_present "llm_request_id" e.request_id (
    put_present "llm_provider" (provider_name e.provider)
      (put "llm_error_category" (text (category_value e.category)) d))

abbrev is_text : String → Option Json → Bool
is_text s (some (text t)) = t == s
is_text s _ = false

-- `_safe_runtime_error_payload`
unfoldable pub safe_runtime_error_payload : Error → Dict
safe_runtime_error_payload exc =
    let d = llm_entries (provider_error exc) (entry "error_type" (text (error_type exc)) empty) in
    if is_text "invalid_response" (get "llm_error_category" d)
    then put "retryable" (bool false) d
    else d

-- `_safe_rag_error_payload`
unfoldable pub safe_rag_error_payload : Error → Dict
safe_rag_error_payload exc =
    entry "error_type" (text (error_type exc))
      (entry "rag_error" (text "knowledge_grounding_unavailable") empty)

-- `_llm_stage_event_payload`
unfoldable pub llm_stage_event_payload : Bool → RuntimeStage → Dict
llm_stage_event_payload llm_runtime_enabled stage =
    if not llm_runtime_enabled
    then empty
    else entry "llm_runtime_enabled" (bool true) (
        entry "llm_stage_mode"
          (text
            (if same_stage stage quotation then "deterministic_no_llm" else "structured_prompt"))
          empty)

abbrev or_null : Option Json → Json
or_null none = null
or_null (some v) = v

abbrev safe_llm_keys : List String
safe_llm_keys =
    "llm_runtime_enabled" ∷ "llm_skipped" ∷ "llm_output_schema" ∷ "llm_provider" ∷ "llm_model"
    ∷ "llm_request_id" ∷ "llm_finish_reason" ∷ []

abbrev put_if_there : String → Option Json → Dict → Dict
put_if_there k none d = d
put_if_there k (some v) d = put k v d

-- `for key in keys: if key in source: target[key] = source[key]`
abbrev copy_keys : List String → Dict → Dict → Dict
copy_keys [] source target = target
copy_keys (k ∷ ks) source target = copy_keys ks source (put_if_there k (get k source) target)

-- `_safe_stage_output`
unfoldable pub safe_stage_output : Dict → Dict
safe_stage_output output = copy_keys safe_llm_keys output (
    entry "stage" (or_null (get "stage" output)) (
      entry "status" (or_null (get "status" output)) (
        entry "summary" (or_null (get "summary" output))
          (entry "placeholder" (or_null (get "placeholder" output)) empty))))

-- `if stage_output: event_payload["stage_output"] = …`
abbrev with_output : Option Dict → Dict → Dict
with_output none d = d
with_output (some output) d =
    if is_empty output then d else put "stage_output" (object (safe_stage_output output)) d

module _ (P : Platform) (publisher : Publisher) (i : Uuid) (actor : Actor) where
  -- The event that `_append_runtime_event` appends.
  abbrev pub runtime_event : String → EventStatus → String → Dict → WorkflowEventCreate
  runtime_event event_type status message payload = record {
    workflow_id = i;
    event_type = event_type;
    actor_type = actor.actor_type;
    actor_id = actor.actor_id;
    agent_name = none;
    status = some status;
    message = some message;
    payload = update (entry "workflow_id" (text (P.uuid_str i)) empty) payload;
  }

  -- The event that `_append_node_event` appends.
  abbrev pub node_event :
      RuntimeStage
      → String
      → EventStatus
      → WorkflowStatus
      → String
      → Option Dict
      → Dict
      → WorkflowEventCreate
  node_event stage event_type status workflow_status message stage_output payload = record {
    workflow_id = i;
    event_type = event_type;
    actor_type = actor.actor_type;
    actor_id = actor.actor_id;
    agent_name = some (stage_value stage);
    status = some status;
    message = some message;
    payload =
        update
          (with_output stage_output (
            entry "workflow_id" (text (P.uuid_str i)) (
              entry "stage" (text (stage_value stage))
                (entry "workflow_status" (text (status_value workflow_status)) empty))))
          payload;
  }

  -- `_append_runtime_event`
  unfoldable pub append_runtime_event : String → EventStatus → String → Dict → Action Unit
  append_runtime_event event_type status message payload = do
    append_event P publisher (runtime_event event_type status message payload)
    pure tt

  -- `_append_runtime_failed_event`
  unfoldable pub append_runtime_failed_event : String → Dict → Action Unit
  append_runtime_failed_event message payload =
      append_runtime_event "workflow.runtime.failed" failed message payload

  -- `_append_node_event`
  unfoldable pub append_node_event :
      RuntimeStage
      → String
      → EventStatus
      → WorkflowStatus
      → String
      → Option Dict
      → Dict
      → Action Unit
  append_node_event stage event_type status workflow_status message stage_output payload = do
    append_event P publisher
        (node_event stage event_type status workflow_status message stage_output payload)
    pure tt
