-- ===== src/Api/Conflicts.antt =====
-- Decisions that the approval endpoint refuses (backend/app/api/v1/workflows.py).
use graduation_project.Prelude.{
  ◌≡◌, ◌≢◌, ◌⊎◌, inl, inr, refl, true, ◌&&◌, none, some, List, arith, Bool-cases,
}
use graduation_project.Lifecycle.{WorkflowStatus, waiting_approval, is_terminal_status, same_status}
use graduation_project.Schema.{Workflow, WorkflowState}
use graduation_project.Schema.Approval.{
  ApprovalDecisionType, ApprovalDecisionRequest, ApprovalRecord,
}
use graduation_project.Store.{
  Platform, Session, Error, err, find_workflow, or_raise, check, duplicate_final_decision,
  terminal_state, invalid_state, ◌>>=◌,
}
use graduation_project.Workflows.Events.{Publisher}
use graduation_project.Workflows.Contract.{ReadsBack, IsStored}
use graduation_project.Approval.Rules.{
  is_final_approval_decision, has_final_approval_decision, validate_approval_decision_allowed,
  decision_allowed_iff,
}
use graduation_project.Approval.Roles.{require_roles, workflow_full_access_roles}
use graduation_project.Approval.Access.{full_access-may_decide}
use graduation_project.Approval.Payload.{approval_records_from_payload}
use graduation_project.Approval.Service.{User, submit_approval_decision}
use graduation_project.Approval.Outcome.{get_workflow-stored}
use graduation_project.Runtime.Graph.{Engine}
use graduation_project.Api.{
  HttpError, http, approval_conflict_http_exception, closed, respond, guarded,
}
use graduation_project.Api.Endpoints.{except_approval, post_approval}

abbrev IsConflict : Error → Type 0
IsConflict e = except_approval e ≡ some (approval_conflict_http_exception e)

-- What the check on a decision raises is among what the endpoint answers as a conflict.
validate_approval_decision_allowed-IsConflict :
    (st : WorkflowStatus) (d : ApprovalDecisionType) (rs : List ApprovalRecord)
    → (validate_approval_decision_allowed st d rs ≡ none)
      ⊎ ((e : Error) × (validate_approval_decision_allowed st d rs ≡ some e) × IsConflict e)
unfolding validate_approval_decision_allowed
validate_approval_decision_allowed-IsConflict st d rs = elim (Bool-cases (is_terminal_status st)) [
  | inl ended ↦ inr (terminal_state st, rw ended refl, refl)
  | inr going ↦ elim (Bool-cases (same_status st waiting_approval)) [
    | inr elsewhere ↦ inr (invalid_state st, rw (going, elsewhere) refl, refl)
    | inl waits ↦
        elim (Bool-cases (is_final_approval_decision d && has_final_approval_decision rs)) [
          | inl twice ↦ inr (duplicate_final_decision, rw (going, waits, twice) refl, refl)
          | inr single ↦ inl (rw (going, waits, single) refl)
        ]
  ]
]

module _ (P : Platform) (publisher : Publisher) (E : Engine) (user : User) (law : ReadsBack P)
    (w : Workflow) (state : WorkflowState) (request : ApprovalDecisionRequest)
    (existing : List ApprovalRecord) (s : Session) where
  submit_approval_decision-IsConflict :
      find_workflow w.id s.workflows ≡ some w
      → IsStored P w state
      → approval_records_from_payload P state.approval ≡ some existing
      → (w.status ≢ waiting_approval)
        ⊎ (is_final_approval_decision request.decision && has_final_approval_decision existing
            ≡ true)
      → require_roles workflow_full_access_roles user.role_names ≡ true
      → (e : Error) × (submit_approval_decision P publisher w.id request user s ≡ (err e, s))
        × IsConflict e
  unfolding submit_approval_decision or_raise check ◌>>=◌
  submit_approval_decision-IsConflict here h reads wrong access =
      let opened = get_workflow-stored P law w.id w state s here h in
      let role = full_access-may_decide user request.decision access in
      elim (Bool-cases
        (is_final_approval_decision request.decision && has_final_approval_decision existing)) [
          | inl twice ↦ (duplicate_final_decision, rw (opened, reads, role, twice) refl, refl)
          | inr single ↦
              elim (validate_approval_decision_allowed-IsConflict w.status request.decision
                existing) [
                  | inr (e, blocked, conflict) ↦
                      (e, rw (opened, reads, role, single, blocked) refl, conflict)
                  | inl passed ↦ absurd (
                      ground
                        (arith, (decision_allowed_iff w.status request.decision existing).0 passed))
                ]
        ]

  -- Where dumps read back, a user with full access who decides on a stored workflow with a readable
  -- history that does not wait for approval, or decides finally on one that has a final decision,
  -- is answered with a 409, and the session is as before.
  pub post_approval-conflict :
      find_workflow w.id s.workflows ≡ some w
      → IsStored P w state
      → approval_records_from_payload P state.approval ≡ some existing
      → (w.status ≢ waiting_approval)
        ⊎ (is_final_approval_decision request.decision && has_final_approval_decision existing
            ≡ true)
      → require_roles workflow_full_access_roles user.role_names ≡ true
      → let (answer, t) = post_approval P publisher E user w.id request s in
        (h : HttpError) × (answer ≡ http h) × (h.status_code ≡ 409) × (t ≡ s)
  unfolding post_approval guarded respond closed approval_conflict_http_exception
  post_approval-conflict here h reads wrong access =
      let (e, raises, conflict) = submit_approval_decision-IsConflict here h reads wrong access in
      rw (access, raises, conflict) (approval_conflict_http_exception e, refl, refl, refl)
