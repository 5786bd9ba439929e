-- ===== src/Approval/Rules.antt =====
-- backend/app/approvals/lifecycle.py: when a decision is allowed, and when a workflow may resume.
use graduation_project.Prelude.{
  ◌≡◌, ◌↔◌, ◌⊎◌, Bool, true, false, ◌&&◌, Option, none, some, List, [], ◌∷◌, ◌++◌, any, any-append,
  not, arith, if◌then◌else◌,
}
use graduation_project.Lifecycle.{
  WorkflowStatus, waiting_approval, approved, rejected, same_status, is_terminal_status,
  can_transition,
}
use graduation_project.Schema.Approval.{
  ApprovalDecisionType, approve, reject, request_changes, same_decision, ApprovalRecord,
}
use graduation_project.Store.{
  Error, terminal_state, invalid_state, duplicate_final_decision, resume_not_allowed,
}

abbrev pub final_approval_decisions : List ApprovalDecisionType
final_approval_decisions = approve ∷ reject ∷ []

unfoldable pub is_final_approval_decision : ApprovalDecisionType → Bool
is_final_approval_decision decision = any (same_decision decision) final_approval_decisions

unfoldable pub has_final_approval_decision : List ApprovalRecord → Bool
has_final_approval_decision = any (λ r. is_final_approval_decision r.decision)

abbrev pub all_decisions : List ApprovalDecisionType
all_decisions = approve ∷ reject ∷ request_changes ∷ []

unfoldable pub get_allowed_approval_decisions :
    WorkflowStatus → List ApprovalRecord → List ApprovalDecisionType
get_allowed_approval_decisions status records =
    if not (same_status status waiting_approval)
    then []
    else if has_final_approval_decision records
    then []
    else all_decisions

-- `APPROVAL_DECISION_NEXT_STATUS`
unfoldable pub get_next_status_for_decision : ApprovalDecisionType → Option WorkflowStatus
get_next_status_for_decision approve = some approved
get_next_status_for_decision reject = some rejected
get_next_status_for_decision request_changes = none

-- The status of a workflow that waited, after a decision.
abbrev pub status_after : ApprovalDecisionType → WorkflowStatus
unfolding get_next_status_for_decision
status_after decision = elim (get_next_status_for_decision decision) [
  | none ↦ waiting_approval
  | some next ↦ next
]

-- `none` is the silent return; `some` is what is raised.
unfoldable pub validate_approval_decision_allowed :
    WorkflowStatus → ApprovalDecisionType → List ApprovalRecord → Option Error
unfolding is_terminal_status
validate_approval_decision_allowed status decision records =
    if is_terminal_status status
    then some (terminal_state status)
    else if not (same_status status waiting_approval)
    then some (invalid_state status)
    else if is_final_approval_decision decision && has_final_approval_decision records
    then some duplicate_final_decision
    else none

unfoldable pub get_resume_allowed_after_decision : WorkflowStatus → List ApprovalRecord → Bool
get_resume_allowed_after_decision status records =
    same_status status approved && any (λ r. same_decision r.decision approve) records

unfoldable pub validate_resume_allowed : WorkflowStatus → List ApprovalRecord → Option Error
validate_resume_allowed status records =
    if not (get_resume_allowed_after_decision status records)
    then some (resume_not_allowed status)
    else none

-- A decision passes the check exactly if the workflow waits for approval and the decision is not a
-- second final one.
pub decision_allowed_iff :
    (status : WorkflowStatus) (decision : ApprovalDecisionType) (records : List ApprovalRecord)
    → (validate_approval_decision_allowed status decision records ≡ none) ↔ (
        (status ≡ waiting_approval)
        × ((is_final_approval_decision decision ≡ false)
            ⊎ (has_final_approval_decision records ≡ false)))
unfolding validate_approval_decision_allowed
decision_allowed_iff status decision records = (λ h. ground arith, λ h. ground arith)

-- A decision that passes leads along the transition table: its next status, if it has one, may be
-- entered from the status at hand.
pub decision_next_allowed :
    (status next : WorkflowStatus) (decision : ApprovalDecisionType) (records : List ApprovalRecord)
    → validate_approval_decision_allowed status decision records ≡ none
    → get_next_status_for_decision decision ≡ some next
    → can_transition status next ≡ true
unfolding get_next_status_for_decision can_transition
decision_next_allowed status next decision records passed e =
    ground (arith, (decision_allowed_iff status decision records).0 passed)

-- Once a decision on a waiting workflow has set the status and is the last of the history, the
-- workflow may resume exactly if the decision was an approval, whatever the history held before.
pub resume_after_decision_iff :
    (r : ApprovalRecord) (records : List ApprovalRecord)
    → (validate_resume_allowed (status_after r.decision) (records ++ r ∷ []) ≡ none)
      ↔ (r.decision ≡ approve)
unfolding validate_resume_allowed get_resume_allowed_after_decision get_next_status_for_decision
resume_after_decision_iff r records = (
  λ h. ground (arith, h),
  λ h. ground (arith, h, any-append (λ q. same_decision q.decision approve) records (r ∷ [])),
)

-- The decisions offered for a workflow are those that the check lets pass, except that a request
-- for changes is never offered, yet still allowed, after a final decision.
pub offered_iff_allowed :
    (status : WorkflowStatus) (decision : ApprovalDecisionType) (records : List ApprovalRecord)
    → (any (same_decision decision) (get_allowed_approval_decisions status records) ≡ true) ↔ (
        (validate_approval_decision_allowed status decision records ≡ none)
        × (has_final_approval_decision records ≡ false))
unfolding get_allowed_approval_decisions
offered_iff_allowed status decision records = (
  λ h. ground (arith, (decision_allowed_iff status decision records).1),
  λ h. ground (arith, (decision_allowed_iff status decision records).0 h.0),
)
