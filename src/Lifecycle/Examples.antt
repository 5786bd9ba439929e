-- ===== src/Lifecycle/Examples.antt =====
-- Runs of the transition table, and its theorems at concrete statuses.
use graduation_project.Prelude.{arith, ◌≤◌, ◌≡◌, ◌↔◌, true, false, List, [], ◌∷◌, length, refl}
use graduation_project.Lifecycle.{
  WorkflowStatus, created, planning, retrieving, calculating, checking_compliance, validating,
  waiting_approval, approved, rejected, generating_email, completed, is_terminal_status,
  can_transition,
}
use graduation_project.Lifecycle.Table.{terminal_iff_no_transition}
use graduation_project.Lifecycle.Paths.{Follows, last_status, length-Follows, terminal_reachable}
use graduation_project.Lifecycle.Gate.{visits, approval_gate}

abbrev happy_path : List WorkflowStatus
happy_path =
    planning ∷ retrieving ∷ calculating ∷ checking_compliance ∷ validating ∷ waiting_approval
    ∷ approved ∷ generating_email ∷ completed ∷ []

happy_path-Follows : Follows created happy_path
unfolding can_transition
happy_path-Follows = ground arith

skips_the_gate : can_transition validating approved ≡ false
unfolding can_transition
skips_the_gate = refl

terminal_iff_no_transition_example :
    (is_terminal_status rejected ≡ true)
    ↔ ((t : WorkflowStatus) → can_transition rejected t ≡ false)
terminal_iff_no_transition_example = terminal_iff_no_transition rejected

length-Follows_example : length happy_path ≤ 9
length-Follows_example = length-Follows happy_path happy_path-Follows

approval_gate_example :
    (visits waiting_approval happy_path ≡ true) × (visits approved happy_path ≡ true)
approval_gate_example = approval_gate happy_path happy_path-Follows refl

terminal_reachable_example :
    (ts : List WorkflowStatus) × Follows approved ts
    × (is_terminal_status (last_status approved ts) ≡ true)
terminal_reachable_example = terminal_reachable approved
