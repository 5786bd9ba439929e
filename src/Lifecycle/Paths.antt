-- ===== src/Lifecycle/Paths.antt =====
-- Sequences of allowed transitions (backend/app/workflows/lifecycle.py).
use graduation_project.Prelude.{ℕ, ◌+◌, ◌≤◌, ◌<◌, ◌≡◌, ◌≢◌, true, List, [], ◌∷◌, ap, arith, length}
use graduation_project.Lifecycle.{
  WorkflowStatus, created, planning, retrieving, calculating, checking_compliance, validating,
  waiting_approval, approved, generating_email, completed, cancelled, is_terminal_status,
  can_transition,
}

-- `ts` are the statuses that a workflow passes through after `s`, each by an allowed transition.
abbrev pub Follows : WorkflowStatus → List WorkflowStatus → Type 0
Follows s [] = Unit
Follows s (t ∷ ts) = (can_transition s t ≡ true) × Follows t ts

abbrev pub last_status : WorkflowStatus → List WorkflowStatus → WorkflowStatus
last_status s [] = s
last_status s (t ∷ ts) = last_status t ts

-- How far along the procurement process a status stands.
abbrev progress : WorkflowStatus → ℕ
progress created = 0
progress planning = 1
progress retrieving = 2
progress calculating = 3
progress checking_compliance = 4
progress validating = 5
progress waiting_approval = 6
progress approved = 7
progress generating_email = 8
progress _ = 9

progress-lt : (s t : WorkflowStatus) → can_transition s t ≡ true → progress s < progress t
unfolding can_transition
progress-lt created t h = ground arith
progress-lt s t h = ground arith

progress-le : (s : WorkflowStatus) → progress s ≤ 9
progress-le s = ground arith

length-progress :
    (s : WorkflowStatus) (ts : List WorkflowStatus) → Follows s ts → length ts + progress s ≤ 9
length-progress s [] h = omega (arith, progress-le s)
length-progress s (t ∷ ts) h = omega (arith, progress-lt s t h.0, length-progress t ts h.1)

-- From CREATED on, a workflow makes at most nine allowed transitions.
pub length-Follows : (ts : List WorkflowStatus) → Follows created ts → length ts ≤ 9
length-Follows ts h = omega (arith, length-progress created ts h)

progress_last :
    (s : WorkflowStatus) (ts : List WorkflowStatus)
    → Follows s ts
    → progress s + length ts ≤ progress (last_status s ts)
progress_last s [] h = omega arith
progress_last s (t ∷ ts) h = omega (arith, progress-lt s t h.0, progress_last t ts h.1)

-- A status that has been left by an allowed transition is not reached again.
pub Follows-no_return :
    (s t : WorkflowStatus) (ts : List WorkflowStatus) → Follows s (t ∷ ts) → last_status t ts ≢ s
Follows-no_return s t ts h = λ back. omega (arith, progress_last s (t ∷ ts) h, ap progress back)

-- A route from a status to the end of the process: forward, through an approval.
abbrev route : WorkflowStatus → List WorkflowStatus
route created = cancelled ∷ []
route planning = cancelled ∷ []
route retrieving = cancelled ∷ []
route calculating = cancelled ∷ []
route checking_compliance = cancelled ∷ []
route validating = cancelled ∷ []
route waiting_approval = cancelled ∷ []
route approved = generating_email ∷ completed ∷ []
route generating_email = completed ∷ []
route _ = []

route-Follows : (s : WorkflowStatus) → Follows s (route s)
unfolding can_transition
route-Follows created = ground arith
route-Follows s = ground arith

route-last : (s : WorkflowStatus) → is_terminal_status (last_status s (route s)) ≡ true
unfolding is_terminal_status
route-last created = ground arith
route-last s = ground arith

-- From every status some sequence of allowed transitions ends in a terminal status.
pub terminal_reachable :
    (s : WorkflowStatus)
    → (ts : List WorkflowStatus) × Follows s ts × (is_terminal_status (last_status s ts) ≡ true)
terminal_reachable s = (route s, route-Follows s, route-last s)
