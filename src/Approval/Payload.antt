-- ===== src/Approval/Payload.antt =====
-- The payloads of backend/app/approvals/service.py: the history kept in the workflow's approval
-- section, and what events and audit records say of a decision.
use graduation_project.Prelude.{String, Bool, Option, none, some, List, [], ◌∷◌, ◌++◌, ◌||◌}
use graduation_project.Json.{
  Json, Items, Dict, null, bool, text, array, object, nil, cons, empty, entry, get, put,
}
use graduation_project.Lifecycle.{WorkflowStatus, status_value}
use graduation_project.Schema.Approval.{
  ApprovalDecisionType, approve, reject, request_changes, same_decision, decision_value,
  ApprovalRecord,
}
use graduation_project.Store.{Platform}
use graduation_project.Workflows.Audit.{optional_text, put_present, texts}

abbrev pub decision_event_type : ApprovalDecisionType → String
decision_event_type approve = "workflow.approval.approved"
decision_event_type reject = "workflow.approval.rejected"
decision_event_type request_changes = "workflow.approval.changes_requested"

abbrev pub event_message : ApprovalDecisionType → String
event_message approve = "Workflow approval accepted."
event_message reject = "Workflow approval rejected."
event_message request_changes = "Workflow changes requested."

-- `f"Approval decision: {request.decision.value}"`
abbrev pub decision_reason : ApprovalDecisionType → String
decision_reason approve = "Approval decision: approve"
decision_reason reject = "Approval decision: reject"
decision_reason request_changes = "Approval decision: request_changes"

abbrev cons_record :
    Option ApprovalRecord → Option (List ApprovalRecord) → Option (List ApprovalRecord)
cons_record (some r) (some rs) = some (r ∷ rs)
cons_record _ _ = none

-- `decision in (APPROVE, REJECT)`
abbrev pub closes : ApprovalDecisionType → Bool
closes decision = same_decision decision approve || same_decision decision reject

module _ (P : Platform) where
  unfoldable pub validate_records : Items → Option (List ApprovalRecord)
  validate_records nil = some []
  validate_records (cons x xs) = cons_record (P.validate_record x) (validate_records xs)

  abbrev pub from_raw : Option Json → Option (List ApprovalRecord)
  from_raw (some (array xs)) = validate_records xs
  from_raw _ = some []

  -- `_approval_records_from_payload`; `none` is pydantic's ValidationError.
  unfoldable pub approval_records_from_payload : Dict → Option (List ApprovalRecord)
  unfolding validate_records
  approval_records_from_payload payload = from_raw (get "approval_history" payload)

  unfoldable pub dump_records : List ApprovalRecord → Items
  dump_records [] = nil
  dump_records (r ∷ rs) = cons (P.dump_record r) (dump_records rs)

  -- `_build_approval_payload`, for the history that ends in the given record.
  unfoldable pub build_approval_payload : Dict → List ApprovalRecord → ApprovalRecord → Bool → Dict
  unfolding dump_records
  build_approval_payload existing before r can_resume =
      put "approval_state"
        (object (
          entry "latest_decision" (text (decision_value r.decision)) (
            entry "latest_decision_id" (text (P.uuid_str r.decision_id)) (
              entry "latest_decided_at" (text (P.isoformat r.decided_at)) (
                entry "has_final_decision" (bool (closes r.decision))
                  (entry "can_resume" (bool can_resume) empty))))))
        (put "approval_history" (array (dump_records (before ++ r ∷ []))) existing)

  abbrev optional_status : Option WorkflowStatus → Json
  optional_status none = null
  optional_status (some st) = text (status_value st)

  unfoldable pub approval_event_payload : ApprovalRecord → Bool → Dict
  approval_event_payload r can_resume = put_present "request_id" r.request_id (
      put_present "comment" r.comment (
        entry "decision_id" (text (P.uuid_str r.decision_id)) (
          entry "decision" (text (decision_value r.decision)) (
            entry "actor_id" (text (P.uuid_str r.actor_id)) (
              entry "actor_email" (optional_text r.actor_email) (
                entry "actor_roles" (array (texts r.actor_roles)) (
                  entry "previous_status" (text (status_value r.previous_status)) (
                    entry "next_status" (optional_status r.next_status) (
                      entry "can_resume" (bool can_resume)
                        (entry "resume_recommended" (bool can_resume) empty))))))))))

  unfoldable pub approval_audit_payload : ApprovalRecord → Bool → Dict
  unfolding approval_event_payload
  approval_audit_payload r can_resume =
      put "workflow_id" (text (P.uuid_str r.workflow_id)) (approval_event_payload r can_resume)
