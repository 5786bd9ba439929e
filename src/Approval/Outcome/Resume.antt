-- ===== src/Approval/Outcome/Resume.antt =====
-- Whether a workflow may resume once a decision on it is done
-- (backend/app/approvals/service.py and lifecycle.py).
use graduation_project.Prelude.{
  ◌≡◌, ◌↔◌, refl, sym, true, false, ◌&&◌, some, none, List, [], ◌∷◌, ◌++◌, arith,
}
use mathlib.Core.Path.{subst}
use graduation_project.Lifecycle.{WorkflowStatus, waiting_approval}
use graduation_project.Schema.{WorkflowState, Workflow}
use graduation_project.Schema.Approval.{
  ApprovalDecisionType, approve, reject, request_changes, ApprovalDecisionRequest,
  ApprovalDecisionResponse, ApprovalHistoryResponse, ApprovalRecord,
}
use graduation_project.Store.{Platform, Session, ok, find_workflow}
use graduation_project.Workflows.Events.{Publisher}
use graduation_project.Workflows.Contract.{ReadsBack, IsStored}
use graduation_project.Approval.Rules.{
  is_final_approval_decision, has_final_approval_decision, get_next_status_for_decision,
  get_resume_allowed_after_decision, validate_resume_allowed, status_after,
  resume_after_decision_iff,
}
use graduation_project.Approval.Roles.{can_submit_approval_decision}
use graduation_project.Approval.Payload.{approval_records_from_payload}
use graduation_project.Approval.Service.{
  User, status_or, actor_role_names, is_valid_record, get_approval_history,
  submit_approval_decision,
}
use graduation_project.Approval.Contract.History.{ReadsRecords}
use graduation_project.Approval.Outcome.{history, response, next_status, made}
use graduation_project.Approval.Outcome.Submit.{submit_approval_decision-succeeds}

next-status_after :
    (d : ApprovalDecisionType)
    → status_after d ≡ status_or (get_next_status_for_decision d) waiting_approval
unfolding get_next_status_for_decision
next-status_after approve = refl
next-status_after reject = refl
next-status_after request_changes = refl

told_iff :
    (st : WorkflowStatus) (records : List ApprovalRecord)
    → (get_resume_allowed_after_decision st records ≡ true)
      ↔ (validate_resume_allowed st records ≡ none)
unfolding validate_resume_allowed
told_iff st records = (λ h. ground (arith, h), λ h. ground (arith, h))

module _ (P : Platform) (publisher : Publisher) (law : ReadsBack P) (records_law : ReadsRecords P)
    (w : Workflow) (state : WorkflowState) (request : ApprovalDecisionRequest) (actor : User)
    (existing : List ApprovalRecord) where
  -- Where dumps read back, a decision on a stored workflow that waits for approval, with a readable
  -- history, by a user with the roles for it, which is not a second final one and whose record is
  -- valid, is answered. The answer says that the workflow may resume exactly if the decision was an
  -- approval, and exactly then the check on resumption passes with the status of the row and the
  -- history that are stored after it.
  pub submit_approval_decision-resumes :
      (s : Session)
      → find_workflow w.id s.workflows ≡ some w
      → IsStored P w state
      → w.status ≡ waiting_approval
      → approval_records_from_payload P state.approval ≡ some existing
      → can_submit_approval_decision (actor_role_names actor) request.decision ≡ true
      → is_final_approval_decision request.decision && has_final_approval_decision existing ≡ false
      → is_valid_record
          (made P w request actor (next_status request) (P.uuid4 s.drawn) (P.now s.readings))
        ≡ true
      → let (res, t) = submit_approval_decision P publisher w.id request actor s in
        (answer : ApprovalDecisionResponse) × (row : Workflow) × (stored : ApprovalHistoryResponse)
        × (res ≡ ok answer)
        × (find_workflow w.id t.workflows ≡ some row)
        × (get_approval_history P w.id t ≡ (ok stored, t))
        × ((answer.can_resume ≡ true) ↔ (request.decision ≡ approve))
        × ((validate_resume_allowed row.status stored.approvals ≡ none)
            ↔ (request.decision ≡ approve))
  submit_approval_decision-resumes s here h waiting reads role single valid =
      let done =
        submit_approval_decision-succeeds P publisher law records_law w state request actor existing
          s here h waiting reads role single valid in
      let r : ApprovalRecord =
        made P w request actor (next_status request) (P.uuid4 s.drawn) (P.now s.readings) in
      let after : (validate_resume_allowed (next_status request) (existing ++ r ∷ []) ≡ none)
          ↔ (request.decision ≡ approve) =
        subst
          (λ st.
            (validate_resume_allowed st (existing ++ r ∷ []) ≡ none) ↔ (request.decision ≡ approve))
          (next-status_after request.decision) (resume_after_decision_iff r existing) in
      let told = told_iff (next_status request) (existing ++ r ∷ []) in
      (
        response w.id r existing waiting_approval (next_status request),
        done.row,
        history w.id (next_status request) (existing ++ r ∷ []),
        done.answered,
        done.found,
        done.read_back,
        (λ yes. after.0 (told.0 yes), λ yes. told.1 (after.1 yes)),
        subst
            (λ st.
              (validate_resume_allowed st (existing ++ r ∷ []) ≡ none)
              ↔ (request.decision ≡ approve))
            (sym done.moved) after,
      )
