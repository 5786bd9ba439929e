-- ===== src/Approval/Outcome.antt =====
-- What it is for a decision to be done: the answer, the row, the event and the history that is read
-- afterwards.
pub mod Submit
pub mod Resume
use graduation_project.Prelude.{
  ◌≡◌, ◌⊎◌, String, refl, sym, ap, ◌∙◌, Bool, true, false, ◌&&◌, Option, none, some, List, [], ◌∷◌,
  ◌++◌, any, inl, inr, arith, Bool-cases, ◌+◌,
}
use mathlib.Core.Path.{subst, ap₂}
use graduation_project.Lifecycle.{
  WorkflowStatus, created, waiting_approval, same_status, can_transition,
}
use graduation_project.Schema.{
  Uuid, Time, WorkflowState, Workflow, WorkflowEvent, within_bounds, type_value,
  procurement_quotation,
}
use graduation_project.Schema.Approval.{
  ApprovalDecisionType, approve, reject, request_changes, ApprovalDecisionRequest, ApprovalRecord,
  ApprovalDecisionResponse, ApprovalHistoryResponse,
}
use graduation_project.Store.{
  Platform, Session, Result, Action, ok, or_raise, check, gets, pure, ◌>>=◌, find_workflow,
}
use graduation_project.Store.Actions.{get_by_id, draw_uuid, read_clock}
use graduation_project.Workflows.Service.{Actor, get_workflow, transition_workflow_status}
use graduation_project.Workflows.Events.{Publisher}
use graduation_project.Workflows.Contract.{
  ReadsBack, IsStored, with_columns, to_state_stored, transitioned_row,
  transition_workflow_status-succeeds,
}
use graduation_project.Approval.Rules.{
  get_resume_allowed_after_decision, is_final_approval_decision, has_final_approval_decision,
  validate_approval_decision_allowed, get_next_status_for_decision, decision_allowed_iff,
}
use graduation_project.Approval.Roles.{can_submit_approval_decision}
use graduation_project.Approval.Payload.{
  approval_records_from_payload, build_approval_payload, closes, decision_reason,
}
use graduation_project.Approval.Service.{
  User, actor_role_names, is_valid_record, decision_record, decide_status, record_decision,
  status_or, submit_approval_decision, get_approval_history,
}
use graduation_project.Approval.Contract.{decision_event, recorded}
use graduation_project.Approval.Contract.History.{ReadsRecords, approval_records-build}

-- What a history request answers.
abbrev pub history : Uuid → WorkflowStatus → List ApprovalRecord → ApprovalHistoryResponse
history i status records = record {
  workflow_id = i;
  approvals = records;
  has_final_decision = any (λ r. closes r.decision) records;
  can_resume = get_resume_allowed_after_decision status records;
}

-- What a decision answers.
abbrev pub response :
    Uuid
    → ApprovalRecord
    → List ApprovalRecord
    → WorkflowStatus
    → WorkflowStatus
    → ApprovalDecisionResponse
response i r existing previous next =
    let can_resume = get_resume_allowed_after_decision next (existing ++ r ∷ []) in
    record {
      workflow_id = i;
      approval = r;
      previous_status = previous;
      next_status = next;
      can_resume = can_resume;
      resume_recommended = can_resume;
    }

module _ (P : Platform) where
  -- A result and a session in which a decision is done: it is answered, the history that is read
  -- ends in its record, the row has the next status, and its event is the only new one.
  pub record IsDone (i : Uuid) (r : ApprovalRecord) (existing : List ApprovalRecord) (actor : User)
      (previous next : WorkflowStatus) (events : List WorkflowEvent)
      (res : Result ApprovalDecisionResponse) (t : Session) : Type 0 where
    pub answered : res ≡ ok (response i r existing previous next)
    pub read_back : get_approval_history P i t ≡ (ok (history i next (existing ++ r ∷ [])), t)
    pub row : Workflow
    pub found : find_workflow i t.workflows ≡ some row
    pub moved : row.status ≡ next
    pub event : WorkflowEvent
    pub told :
        event.content
        ≡ decision_event P i r actor (get_resume_allowed_after_decision next (existing ++ r ∷ []))
    pub announced : t.events ≡ events ++ event ∷ []

  pub get_workflow-stored :
      ReadsBack P
      → (i : Uuid) (w : Workflow) (state : WorkflowState) (s : Session)
      → find_workflow i s.workflows ≡ some w
      → IsStored P w state
      → get_workflow P i s ≡ (ok (some (with_columns P w state)), s)
  unfolding get_workflow get_by_id gets pure ◌>>=◌
  get_workflow-stored law i w state s here h = rw (here, to_state_stored P law w state s h) refl

  pub get_approval_history-stored :
      ReadsBack P
      → (i : Uuid) (w : Workflow) (state : WorkflowState) (records : List ApprovalRecord)
        (s : Session)
      → find_workflow i s.workflows ≡ some w
      → IsStored P w state
      → approval_records_from_payload P state.approval ≡ some records
      → get_approval_history P i s ≡ (ok (history i w.status records), s)
  unfolding get_approval_history or_raise pure ◌>>=◌
  get_approval_history-stored law i w state records s here h reads =
      rw (get_workflow-stored law i w state s here h, reads) refl

  pub carried :
      (i : Uuid) (r r' : ApprovalRecord) (existing : List ApprovalRecord) (actor : User)
      (previous next : WorkflowStatus) (es es' : List WorkflowEvent)
      (res : Result ApprovalDecisionResponse) (t : Session)
      → r ≡ r'
      → es ≡ es'
      → IsDone i r existing actor previous next es res t
      → IsDone i r' existing actor previous next es' res t
  carried i r r' existing actor previous next es es' res t e f done =
      subst (λ x. IsDone i x existing actor previous next es' res t) e
        (subst (λ x. IsDone i r existing actor previous next x res t) f done)

-- The status that a decision leads to from the wait for approval.
abbrev pub next_status : ApprovalDecisionRequest → WorkflowStatus
next_status request = status_or (get_next_status_for_decision request.decision) waiting_approval

-- The record of a decision, under its key and time.
abbrev pub made :
    Platform
    → Workflow
    → ApprovalDecisionRequest
    → User
    → WorkflowStatus
    → Uuid
    → Time
    → ApprovalRecord
made P w request actor next i t =
    decision_record P w.id request actor (actor_role_names actor) waiting_approval next i t
