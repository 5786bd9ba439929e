-- ===== src/Lifecycle/Table.antt =====
-- What the transition table says as a whole: terminal statuses, and the error that is raised.
use graduation_project.Prelude.{◌≡◌, ◌↔◌, ◌⊎◌, inl, inr, true, false, none, some, arith, Bool-cases}
use graduation_project.Lifecycle.{
  WorkflowStatus, created, planning, retrieving, calculating, checking_compliance, validating,
  waiting_approval, approved, generating_email, completed, same_status, get_allowed_transitions,
  is_terminal_status, can_transition, validate_transition,
}

-- Two statuses compare as the same member exactly when they are equal.
pub same_status_iff : (a b : WorkflowStatus) → (same_status a b ≡ true) ↔ (a ≡ b)
same_status_iff a b = (λ h. ground arith, λ h. ground arith)

no_transition_of_terminal :
    (s t : WorkflowStatus) → is_terminal_status s ≡ true → can_transition s t ≡ false
unfolding is_terminal_status can_transition
no_transition_of_terminal created t h = cc
no_transition_of_terminal s t h = ground arith

-- A status that the table lets through to, where there is one.
abbrev successor : WorkflowStatus → WorkflowStatus
successor created = planning
successor planning = retrieving
successor retrieving = calculating
successor calculating = checking_compliance
successor checking_compliance = validating
successor validating = waiting_approval
successor waiting_approval = approved
successor approved = generating_email
successor generating_email = completed
successor s = s

terminal_of_stuck :
    (s : WorkflowStatus) → can_transition s (successor s) ≡ false → is_terminal_status s ≡ true
unfolding is_terminal_status can_transition
terminal_of_stuck created h = cc
terminal_of_stuck s h = ground arith

-- The statuses listed as terminal are exactly those from which no transition is allowed.
pub terminal_iff_no_transition :
    (s : WorkflowStatus)
    → (is_terminal_status s ≡ true) ↔ ((t : WorkflowStatus) → can_transition s t ≡ false)
terminal_iff_no_transition s =
    (λ h t. no_transition_of_terminal s t h, λ stuck. terminal_of_stuck s (stuck (successor s)))

-- Validation passes exactly for an allowed transition, and otherwise raises the error that names
-- both statuses and every status that would have been allowed.
pub validate_transition_lem :
    (s t : WorkflowStatus)
    → ((can_transition s t ≡ true) × (validate_transition s t ≡ none))
      ⊎ ((can_transition s t ≡ false)
          × (validate_transition s t
              ≡ some (record {
                from_status = s;
                to_status = t;
                allowed_statuses = get_allowed_transitions s;
              })))
unfolding validate_transition
validate_transition_lem s t = elim (Bool-cases (can_transition s t)) [
  | inl passes ↦ inl (passes, rw passes)
  | inr blocked ↦ inr (blocked, rw blocked)
]

pub validate_transition-none :
    (s t : WorkflowStatus) → validate_transition s t ≡ none → can_transition s t ≡ true
validate_transition-none s t h = ground (arith, validate_transition_lem s t)

pub validate_transition-allowed :
    (s t : WorkflowStatus) → can_transition s t ≡ true → validate_transition s t ≡ none
unfolding validate_transition
validate_transition-allowed s t h = rw h

pub validate_transition-refused :
    (s t : WorkflowStatus)
    → can_transition s t ≡ false
    → validate_transition s t
      ≡ some
          (record { from_status = s; to_status = t; allowed_statuses = get_allowed_transitions s })
unfolding validate_transition
validate_transition-refused s t h = rw h
