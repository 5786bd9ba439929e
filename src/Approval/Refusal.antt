-- ===== src/Approval/Refusal.antt =====
-- Decisions that are refused (backend/app/approvals/service.py).
use graduation_project.Prelude.{
  ◌≡◌, ◌≢◌, ◌⊎◌, inl, inr, refl, true, false, ◌&&◌, some, List, any, ◌∙◌, arith, Bool-cases,
  Option-cases,
}
use graduation_project.Lifecycle.{waiting_approval}
use graduation_project.Schema.{WorkflowState, Workflow}
use graduation_project.Schema.Approval.{ApprovalDecisionRequest, ApprovalRecord}
use graduation_project.Store.{
  Platform, Session, Error, err, or_raise, check, permission_denied, duplicate_final_decision,
  ◌>>=◌, find_workflow,
}
use graduation_project.Workflows.Events.{Publisher}
use graduation_project.Workflows.Contract.{ReadsBack, IsStored}
use graduation_project.Approval.Rules.{
  is_final_approval_decision, has_final_approval_decision, validate_approval_decision_allowed,
  decision_allowed_iff,
}
use graduation_project.Approval.Roles.{can_submit_approval_decision}
use graduation_project.Approval.Access.{is_leader, may_decide_lem}
use graduation_project.Approval.Payload.{approval_records_from_payload}
use graduation_project.Approval.Service.{User, actor_role_names, submit_approval_decision}
use graduation_project.Approval.Outcome.{get_workflow-stored}

module _ (P : Platform) (publisher : Publisher) (law : ReadsBack P) (w : Workflow)
    (state : WorkflowState) (request : ApprovalDecisionRequest) (actor : User)
    (existing : List ApprovalRecord) (s : Session) where
  -- Where dumps read back, on a stored workflow with a readable history, whoever has neither a role
  -- named Admin nor one named Manager gets the permission error, whatever the decision is, the
  -- workflow's status and what the history holds, and nothing is written.
  pub submit_approval_decision-forbidden :
      find_workflow w.id s.workflows ≡ some w
      → IsStored P w state
      → approval_records_from_payload P state.approval ≡ some existing
      → any is_leader actor.role_names ≡ false
      → submit_approval_decision P publisher w.id request actor s ≡ (err permission_denied, s)
  unfolding submit_approval_decision or_raise check ◌>>=◌
  submit_approval_decision-forbidden here h reads role =
      rw
        (
          get_workflow-stored P law w.id w state s here h,
          reads,
          may_decide_lem actor request.decision ∙ role,
        )
        refl

  -- A decision on a stored workflow with a readable history that does not wait for approval, or a
  -- second final decision on one, is refused, whoever submits it, and nothing is written.
  pub submit_approval_decision-refused :
      find_workflow w.id s.workflows ≡ some w
      → IsStored P w state
      → approval_records_from_payload P state.approval ≡ some existing
      → (w.status ≢ waiting_approval)
        ⊎ (is_final_approval_decision request.decision && has_final_approval_decision existing
            ≡ true)
      → (e : Error) × (submit_approval_decision P publisher w.id request actor s ≡ (err e, s))
  unfolding submit_approval_decision or_raise check ◌>>=◌
  submit_approval_decision-refused here h reads wrong =
      let opened = get_workflow-stored P law w.id w state s here h in
      elim (Bool-cases (can_submit_approval_decision (actor_role_names actor) request.decision)) [
        | inr role ↦ (permission_denied, rw (opened, reads, role) refl)
        | inl role ↦
            elim (Bool-cases (
              is_final_approval_decision request.decision
              && has_final_approval_decision existing)) [
                | inl twice ↦ (duplicate_final_decision, rw (opened, reads, role, twice) refl)
                | inr single ↦
                    elim (Option-cases
                      (validate_approval_decision_allowed w.status request.decision existing)) [
                        | inr (e, blocked) ↦ (e, rw (opened, reads, role, single, blocked) refl)
                        | inl passed ↦ absurd (
                            ground (
                              arith,
                              (decision_allowed_iff w.status request.decision existing).0 passed,
                            ))
                      ]
              ]
      ]
