-- ===== src/Approval/Service.antt =====
-- backend/app/approvals/service.py: `ApprovalService`.
use Prim.Native.String
use graduation_project.Prelude.{
  ℕ, String, Bool, true, false, not, ◌&&◌, Option, none, some, List, [], ◌∷◌, ◌++◌, any, all,
  length, leb, ◌==◌, if◌then◌else◌,
}
use graduation_project.Json.Equality.{sorted}
use graduation_project.Lifecycle.{WorkflowStatus, same_status}
use graduation_project.Schema.{Uuid, Time, WorkflowState, EventStatus}
use graduation_project.Schema.Approval.{
  ApprovalDecisionRequest, ApprovalRecord, ApprovalDecisionResponse, ApprovalHistoryResponse,
}
use graduation_project.Store.{
  Platform, Error, Action, workflow_not_found, permission_denied, duplicate_final_decision,
  validation_failed, pure, or_raise, check, ◌>>=◌, ◌>>◌,
}
use graduation_project.Store.Actions.{draw_uuid, read_clock, flush}
use graduation_project.Workflows.Audit.{append_audit_log}
use graduation_project.Workflows.Service.{
  Actor, get_workflow, transition_workflow_status, update_workflow_state,
}
use graduation_project.Workflows.Events.{Publisher, append_event}
use graduation_project.Approval.Roles.{can_submit_approval_decision}
use graduation_project.Approval.Rules.{
  get_next_status_for_decision, get_resume_allowed_after_decision, has_final_approval_decision,
  is_final_approval_decision, validate_approval_decision_allowed,
}
use graduation_project.Approval.Metadata.{validate_json_object}
use graduation_project.Approval.Sanitize.{sanitize_json_mapping}
use graduation_project.Approval.Payload.{
  decision_event_type, decision_reason, event_message, closes, approval_records_from_payload,
  build_approval_payload, approval_event_payload, approval_audit_payload,
}

pub record User : Type 0 where
  pub id : Uuid
  pub email : Option String
  pub role_names : List String

-- The set of a user's role names: no name twice.
abbrev pub distinct : List String → List String
distinct [] = []
distinct (x ∷ xs) = let rest = distinct xs in if any (λ y. y == x) rest then rest else x ∷ rest

-- `tuple(sorted(get_user_role_names(user)))`
unfoldable pub actor_role_names : User → List String
unfolding sorted
actor_role_names user = sorted (distinct user.role_names)

abbrev pub status_or : Option WorkflowStatus → WorkflowStatus → WorkflowStatus
status_or none st = st
status_or (some next) st = next

abbrev bounded : ℕ → String → Bool
bounded n s = leb 1 (String.count s) && leb (String.count s) n

abbrev bounded_optional : ℕ → Option String → Bool
bounded_optional n none = true
bounded_optional n (some s) = bounded n s

abbrev is_none : {A : Type 0} → Option A → Bool
is_none none = true
is_none (some x) = false

-- What the fields and the validators of `ApprovalRecord` ask.
unfoldable pub is_valid_record : ApprovalRecord → Bool
unfolding validate_json_object
is_valid_record r =
    leb (length r.actor_roles) 10
    && all (bounded 100) r.actor_roles
    && bounded_optional 320 r.actor_email
    && bounded_optional 2000 r.comment
    && bounded_optional 100 r.request_id
    && is_none (validate_json_object r.metadata)

abbrev pub refuse_if : Bool → Error → Option Error
refuse_if b e = if b then some e else none

-- `ApprovalDecisionRequest.require_rejection_comment`, on the texts that pass the field's bounds.
abbrev pub has_comment : Option String → Bool
has_comment none = false
has_comment (some c) = not (c == "")

module _ (P : Platform) where
  abbrev pub decision_record :
      Uuid
      → ApprovalDecisionRequest
      → User
      → List String
      → WorkflowStatus
      → WorkflowStatus
      → Uuid
      → Time
      → ApprovalRecord
  decision_record i request actor actor_roles previous next decision_id decided_at = record {
    decision_id = decision_id;
    workflow_id = i;
    decision = request.decision;
    actor_id = actor.id;
    actor_email = actor.email;
    actor_roles = actor_roles;
    comment = request.comment;
    decided_at = decided_at;
    previous_status = previous;
    next_status = some next;
    request_id = request.request_id;
    metadata = sanitize_json_mapping P.lower request.metadata;
  }

  -- The status write, where the decision changes the status.
  unfoldable pub decide_status :
      Uuid → WorkflowStatus → WorkflowState → Actor → Option String → Action WorkflowState
  decide_status i next current actor reason =
      if not (same_status next current.status)
      then transition_workflow_status P i next actor reason
      else pure current

  unfoldable pub get_approval_history : Uuid → Action ApprovalHistoryResponse
  get_approval_history i = do
    found ← get_workflow P i
    state ← or_raise (workflow_not_found i) found
    records ← or_raise validation_failed (approval_records_from_payload P state.approval)
    pure (record {
      workflow_id = i;
      approvals = records;
      has_final_decision = any (λ r. closes r.decision) records;
      can_resume = get_resume_allowed_after_decision state.status records;
    })

module _ (P : Platform) (publisher : Publisher) where
  -- The event and the audit record of a decision.
  unfoldable pub announce : Uuid → ApprovalRecord → User → Bool → Action Unit
  announce i r actor can_resume = do
    append_event P publisher (record {
      workflow_id = i;
      event_type = decision_event_type r.decision;
      actor_type = some "user";
      actor_id = some actor.id;
      agent_name = none;
      status = some EventStatus.completed;
      message = some (event_message r.decision);
      payload = approval_event_payload P r can_resume;
    })
    append_audit_log "workflow.approval_decision_submitted" i (some "user") (some actor.id)
        "workflow" i (approval_audit_payload P r can_resume)
    flush P

  -- From the record on: the history is extended, stored, announced and answered.
  unfoldable pub record_decision :
      Uuid
      → ApprovalRecord
      → List ApprovalRecord
      → User
      → WorkflowState
      → WorkflowStatus
      → WorkflowStatus
      → Action ApprovalDecisionResponse
  record_decision i r existing actor persisted previous next = do
    check (refuse_if (not (is_valid_record r)) validation_failed)
    let can_resume = get_resume_allowed_after_decision next (existing ++ r ∷ [])
    update_workflow_state P i
        (record persisted {
          approval = build_approval_payload P persisted.approval existing r can_resume;
        })
        (record { actor_type = some "user"; actor_id = some actor.id })
        (some "Approval decision recorded.")
    announce i r actor can_resume
    pure (record {
      workflow_id = i;
      approval = r;
      previous_status = previous;
      next_status = next;
      can_resume = can_resume;
      resume_recommended = can_resume;
    })

  unfoldable pub submit_approval_decision :
      Uuid → ApprovalDecisionRequest → User → Action ApprovalDecisionResponse
  submit_approval_decision i request actor = do
    found ← get_workflow P i
    current ← or_raise (workflow_not_found i) found
    existing ← or_raise validation_failed (approval_records_from_payload P current.approval)
    let actor_roles = actor_role_names actor
    check (
        refuse_if (not (can_submit_approval_decision actor_roles request.decision))
          permission_denied)
    check (
        refuse_if
          (is_final_approval_decision request.decision && has_final_approval_decision existing)
          duplicate_final_decision)
    check (validate_approval_decision_allowed current.status request.decision existing)
    let next = status_or (get_next_status_for_decision request.decision) current.status
    persisted ←
        decide_status P i next current
          (record { actor_type = some "user"; actor_id = some actor.id })
          (some (decision_reason request.decision))
    decision_id ← draw_uuid P
    decided_at ← read_clock P
    record_decision i
        (decision_record P i request actor actor_roles current.status next decision_id decided_at)
        existing actor persisted current.status next
