-- ===== src/Workflows/Service.antt =====
-- backend/app/workflows/service.py: `WorkflowService`, each method an action.
use graduation_project.Prelude.{
  ℕ, String, Option, none, some, List, [], ◌∷◌, not, ◌==◌, if◌then◌else◌,
}
use graduation_project.Json.{Dict, text, object, empty, entry, update}
use graduation_project.Json.Equality.{sorted, changed_keys}
use graduation_project.Lifecycle.{
  WorkflowStatus, InvalidTransition, created, status_value, same_status, validate_transition,
}
use graduation_project.Schema.{Uuid, WorkflowStateCreate, WorkflowState, Workflow, type_value}
use graduation_project.Store.{
  gets, Platform, Error, Action, workflow_not_found, state_mismatch, validation_failed,
  invalid_transition, pure, or_raise, check, ◌>>=◌, ◌>>◌,
}
use graduation_project.Store.Query.{query_workflows}
use graduation_project.Store.Actions.{
  get_by_id, update_status, update_state_payload, flush_row, create_row,
}
use graduation_project.Workflows.Audit.{
  optional_text, audit_workflow_created, audit_workflow_status_transitioned,
  audit_workflow_state_updated,
}

-- Who acts, and why: the keyword arguments of the methods.
pub record Actor : Type 0 where
  pub actor_type : Option String
  pub actor_id : Option Uuid

abbrev pub refusal : Option InvalidTransition → Option Error
refusal none = none
refusal (some e) = some (invalid_transition e)

-- `_updated_state_fields`
unfoldable pub updated_state_fields : Dict → Dict → List String
unfolding sorted changed_keys
updated_state_fields old_payload new_payload =
    sorted (changed_keys ("created_at" ∷ "updated_at" ∷ []) old_payload new_payload)

module _ (P : Platform) where
  -- The entries of `_workflow_to_state` that the row's columns override.
  abbrev pub columns : Workflow → Dict
  columns w = entry "workflow_id" (text (P.uuid_str w.id)) (
      entry "workflow_type" (text w.workflow_type) (
        entry "domain" (optional_text w.domain) (
          entry "status" (text (status_value w.status)) (
            entry "request" (object w.request_payload) (
              entry "created_at" (text (P.isoformat w.created_at))
                (entry "updated_at" (text (P.isoformat w.updated_at)) empty))))))

  unfoldable pub workflow_to_state : Workflow → Action WorkflowState
  workflow_to_state w =
      or_raise validation_failed (P.validate_state (update w.state_payload (columns w)))

  unfoldable pub get_required_workflow : Uuid → Action Workflow
  get_required_workflow i = do found ← get_by_id i; or_raise (workflow_not_found i) found

  -- The end of `create_workflow` and of `transition_workflow_status`: the state that the row shows
  -- is dumped into its payload.
  unfoldable pub store_state : Workflow → Action WorkflowState
  store_state w = do
    state ← workflow_to_state w
    saved ← update_state_payload w (P.dump_state state)
    stored ← flush_row P saved
    workflow_to_state stored

  unfoldable pub create_workflow : WorkflowStateCreate → Option Uuid → Action WorkflowState
  create_workflow state created_by_id = do
    added ←
        create_row P (type_value state.workflow_type) state.domain created created_by_id
          state.request empty
    w ← flush_row P added
    audit_workflow_created P w.id w.workflow_type w.domain created_by_id
    store_state w

  abbrev pub shown : Option Workflow → Action (Option WorkflowState)
  shown none = pure none
  shown (some w) = do state ← workflow_to_state w; pure (some state)

  unfoldable pub get_workflow : Uuid → Action (Option WorkflowState)
  get_workflow i = do found ← get_by_id i; shown found

  -- `[self._workflow_to_state(workflow) for workflow in workflows]`
  unfoldable pub states_of : List Workflow → Action (List WorkflowState)
  states_of [] = pure []
  states_of (w ∷ ws) = do state ← workflow_to_state w; states ← states_of ws; pure (state ∷ states)

  unfoldable pub list_workflows :
      Option WorkflowStatus → Option String → ℕ → ℕ → Action (List WorkflowState)
  list_workflows status domain limit offset = do
    ws ← gets (λ s. query_workflows status domain limit offset s.workflows)
    states_of ws

  unfoldable pub transition_workflow_status :
      Uuid → WorkflowStatus → Actor → Option String → Action WorkflowState
  transition_workflow_status i to_status actor reason = do
    w ← get_required_workflow i
    check (refusal (validate_transition w.status to_status))
    moved ← update_status w to_status
    stored ← flush_row P moved
    audit_workflow_status_transitioned P stored.id w.status to_status actor.actor_type
        actor.actor_id reason
    store_state stored

  abbrev pub mismatch : WorkflowState → Workflow → Option Error
  mismatch state w =
      if not (state.workflow_id == P.uuid_str w.id)
      then some state_mismatch
      else if not (same_status state.status w.status)
      then some state_mismatch
      else none

  unfoldable pub update_workflow_state :
      Uuid → WorkflowState → Actor → Option String → Action WorkflowState
  update_workflow_state i state actor reason = do
    w ← get_required_workflow i
    check (mismatch state w)
    saved ← update_state_payload w (P.dump_state state)
    audit_workflow_state_updated P saved.id saved.status actor.actor_type actor.actor_id reason
        (updated_state_fields w.state_payload (P.dump_state state))
    stored ← flush_row P saved
    workflow_to_state stored
