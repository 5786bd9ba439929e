-- ===== src/Runtime/Service.antt =====
-- backend/app/runtime/service.py: `RuntimeService`, from its construction to the two runs.
use graduation_project.Prelude.{
  String, Bool, true, false, not, Option, none, some, List, if◌then◌else◌,
}
use graduation_project.Json.{text, array, empty, entry, update}
use graduation_project.Lifecycle.{
  WorkflowStatus, created, waiting_approval, generating_email, status_value, same_status,
}
use graduation_project.Lifecycle
use graduation_project.Stage.{RuntimeStage, stage_value}
use graduation_project.Schema.{Uuid, WorkflowState, started, completed, failed}
use graduation_project.Store.{
  Platform, Error, Result, ok, err, Action, workflow_not_found, invalid_transition,
  precondition_failed, unknown_stage, node_failed, raised, and_then, attempt, lift, pure, raise,
  or_raise, ◌>>=◌, ◌>>◌,
}
use graduation_project.Workflows.Service.{
  Actor, get_workflow, transition_workflow_status, update_workflow_state,
}
use graduation_project.Workflows.Events.{Publisher}
use graduation_project.Runtime.{RuntimeWorkflowState, RuntimeWorkflowResult}
use graduation_project.Runtime.Convert.{
  workflow_state_to_runtime_state, runtime_state_to_workflow_state, stage_values,
}
use graduation_project.Runtime.Graph.{Engine, NodeHandlers, build_workflow_graph}
use graduation_project.Runtime.Rag.{RagAdapter}
use graduation_project.Runtime.Report.{
  error_type, safe_runtime_error_payload, append_runtime_event, append_runtime_failed_event,
  append_node_event,
}
use graduation_project.Runtime.Stages.{
  RuntimeService, Progress, Outcome, going, broke, about_stage, parsed, run_stages,
}

-- The exception that leaves a call, other than an adapter error, which is caught.
abbrev caught : Result RuntimeWorkflowState → Result (Option RuntimeWorkflowState)
caught (ok r) = ok (some r)
caught (err unknown_stage) = ok none
caught (err e) = err e

abbrev refused_transition : WorkflowState → Result WorkflowState → Result WorkflowState
refused_transition state (ok moved) = ok moved
refused_transition state (err (invalid_transition e)) = ok state
refused_transition state (err e) = err e

abbrev checked_rag : Bool → Option RagAdapter → Result (Option RagAdapter)
checked_rag false A = ok none
checked_rag true none = err (raised "ValueError")
checked_rag true (some A) = ok (some A)

module _ (E : Engine) (P : Platform) (publisher : Publisher) where
  -- `RuntimeService.__init__`: the graph is compiled, and grounding asks for a retrieval service.
  unfoldable pub new_runtime_service :
      NodeHandlers
      → List RuntimeStage
      → Bool
      → Option (RuntimeWorkflowState → RuntimeStage → Result RuntimeWorkflowState)
      → Bool
      → Option RagAdapter
      → Result RuntimeService
  new_runtime_service handlers stages llm_runtime_enabled llm_adapter rag_enabled rag_adapter =
      and_then (checked_rag rag_enabled rag_adapter) λ adapter.
        and_then (build_workflow_graph E handlers (some stages)) λ graph. ok (record {
          node_handlers = handlers;
          stages = stages;
          llm_runtime_enabled = llm_runtime_enabled;
          llm_adapter = if llm_runtime_enabled then llm_adapter else none;
          rag_adapter = adapter;
          graph = graph;
        })

  module _ (i : Uuid) (actor : Actor) where
    -- `_transition_to_failed_if_allowed`
    unfoldable pub transition_to_failed_if_allowed : WorkflowState → String → Action WorkflowState
    transition_to_failed_if_allowed state reason = do
      r ← attempt (transition_workflow_status P i Lifecycle.failed actor (some reason))
      lift (refused_transition state r)

    -- The runtime state that a failure leaves, with its error.
    abbrev pub failed_runtime_state :
        RuntimeWorkflowState → WorkflowStatus → RuntimeStage → Error → RuntimeWorkflowState
    failed_runtime_state state status stage exc = record state {
      status = status;
      failed_stage = some stage;
      error = some (record {
        code = "RUNTIME_NODE_FAILED";
        message = about_stage "Runtime stage " stage " failed.";
        failed_step = some (stage_value stage);
        retryable = false;
        details = safe_runtime_error_payload exc;
      });
    }

    -- `_handle_runtime_failure`
    unfoldable pub handle_runtime_failure : RuntimeStage → Progress → Error → Action WorkflowState
    handle_runtime_failure stage p exc = do
      append_node_event P publisher i actor stage "workflow.node.failed" failed p.current.status
          (about_stage "Runtime stage " stage " failed.") none (safe_runtime_error_payload exc)
      append_runtime_failed_event P publisher i actor "Workflow runtime failed." (
          update
            (entry "failed_stage" (text (stage_value stage))
              (entry "status" (text (status_value p.current.status)) empty))
            (safe_runtime_error_payload exc))
      moved ←
          transition_to_failed_if_allowed p.current
            (about_stage "Runtime failed during " stage " stage.")
      state ← lift (parsed E p.payload)
      update_workflow_state P i
          (runtime_state_to_workflow_state (failed_runtime_state state moved.status stage exc)
            moved)
          actor (some "Runtime persisted failure state.")

    -- From the end of the loop of `run_workflow` on.
    unfoldable pub finish_run : Progress → Action RuntimeWorkflowResult
    finish_run p = do
      state ← lift (parsed E p.payload)
      let final = record state { status = p.current.status }
      update_workflow_state P i (runtime_state_to_workflow_state final p.current) actor
          (some "Runtime persisted deterministic pre-approval state.")
      append_runtime_event P publisher i actor "workflow.runtime.waiting_for_approval" completed
          "Workflow runtime is waiting for approval."
          (entry "status" (text (status_value waiting_approval))
            (entry "completed_stages" (array (stage_values final.completed_stages)) empty))
      pure (record {
        state = final;
        completed = false;
        failed = false;
        message = some "Workflow is waiting for approval.";
      })

    unfoldable pub settle_run : Outcome → Action RuntimeWorkflowResult
    settle_run (going p) = finish_run p
    settle_run (broke stage p e) = do handle_runtime_failure stage p e; raise (node_failed stage e)

    -- `run_workflow`, where the workflow is in CREATED and its state has been read.
    unfoldable pub start_run :
        RuntimeService → WorkflowState → Option RuntimeWorkflowState → Action RuntimeWorkflowResult
    start_run R w none = do
      append_runtime_failed_event P publisher i actor
          "Workflow runtime could not start from persisted state."
          (entry "status" (text (status_value w.status)) (
            entry "error_type" (text (error_type unknown_stage))
              (entry "runtime_state_error" (text "invalid_runtime_stage") empty)))
      raise precondition_failed
    start_run R w (some state) = do
      let payload = E.dump_runtime state
      o ←
          run_stages E R P publisher i actor (R.graph payload) R.stages
            (record { current = w; payload = payload; position = 0 })
      settle_run o

    -- The refusal of a workflow that is not in CREATED.
    unfoldable pub refuse_run : WorkflowState → Action RuntimeWorkflowResult
    refuse_run w = do
      append_runtime_failed_event P publisher i actor
          "Workflow runtime can only start from CREATED status."
          (entry "status" (text (status_value w.status)) empty)
      raise precondition_failed

    unfoldable pub accept_run : RuntimeService → WorkflowState → Action RuntimeWorkflowResult
    accept_run R w = do
      append_runtime_event P publisher i actor "workflow.runtime.started" started
          "Workflow runtime started." (entry "status" (text (status_value w.status)) empty)
      state ← lift (caught (workflow_state_to_runtime_state P.lower w))
      start_run R w state

    -- `run_workflow`, where the workflow has been found.
    unfoldable pub run_found : RuntimeService → WorkflowState → Action RuntimeWorkflowResult
    run_found R w = if not (same_status w.status created) then refuse_run w else accept_run R w

    unfoldable pub run_workflow : RuntimeService → Action RuntimeWorkflowResult
    run_workflow R = do
      found ← get_workflow P i
      w ← or_raise (workflow_not_found i) found
      run_found R w
