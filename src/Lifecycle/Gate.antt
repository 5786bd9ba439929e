-- ===== src/Lifecycle/Gate.antt =====
-- The approval gate of the transition table (backend/app/workflows/lifecycle.py).
use graduation_project.Prelude.{
  ◌≡◌, ◌⊎◌, inl, inr, Bool, true, false, List, [], ◌∷◌, arith, any, Bool-cases, or_cases, or_right,
  refl,
}
use graduation_project.Lifecycle.{
  WorkflowStatus, created, waiting_approval, approved, generating_email, completed, same_status,
  can_transition,
}
use graduation_project.Lifecycle.Table.{same_status_iff}
use graduation_project.Lifecycle.Paths.{Follows}

abbrev pub visits : WorkflowStatus → List WorkflowStatus → Bool
visits s ts = any (same_status s) ts

-- Whether a status lies behind the gate.
abbrev pub is_past_approval : WorkflowStatus → Bool
is_past_approval generating_email = true
is_past_approval completed = true
is_past_approval _ = false

-- The steps over the gate: into it only from `approved`, and into `approved` only from the wait.
enters_past_approval :
    (s t : WorkflowStatus)
    → can_transition s t ≡ true
    → is_past_approval t ≡ true
    → (is_past_approval s ≡ true) ⊎ (s ≡ approved)
unfolding can_transition
enters_past_approval created t h p = ground arith
enters_past_approval s t h p = ground arith

enters_approved : (s : WorkflowStatus) → can_transition s approved ≡ true → s ≡ waiting_approval
unfolding can_transition
enters_approved created h = ground arith
enters_approved s h = ground arith

needs_approved :
    (s : WorkflowStatus) (ts : List WorkflowStatus)
    → Follows s ts
    → is_past_approval s ≡ false
    → any is_past_approval ts ≡ true
    → visits approved (s ∷ ts) ≡ true
needs_approved s [] f b v = cc
needs_approved s (t ∷ ts) f b v = elim (Bool-cases (is_past_approval t)) [
  | inl past ↦ elim (enters_past_approval s t f.0 past) [
    | inl already ↦ cc
    | inr gate ↦ rw gate refl
  ]
  | inr before ↦ or_right _ _ (needs_approved t ts f.1 before (rw before at v))
]

needs_wait :
    (s : WorkflowStatus) (ts : List WorkflowStatus)
    → Follows s ts
    → visits approved ts ≡ true
    → visits waiting_approval (s ∷ ts) ≡ true
needs_wait s [] f v = cc
needs_wait s (t ∷ ts) f v = elim (or_cases (same_status approved t) (visits approved ts) v) [
  | inl now ↦ rw (enters_approved s (rw (← (same_status_iff approved t).0 now) at f.0)) refl
  | inr later ↦ or_right _ _ (needs_wait t ts f.1 later)
]

-- Allowed transitions lead from CREATED to GENERATING_EMAIL or COMPLETED only over
-- WAITING_APPROVAL and APPROVED.
pub approval_gate :
    (ts : List WorkflowStatus)
    → Follows created ts
    → any is_past_approval ts ≡ true
    → (visits waiting_approval ts ≡ true) × (visits approved ts ≡ true)
approval_gate ts f v =
    let yes_approved : visits approved ts ≡ true = needs_approved created ts f refl v in
    (needs_wait created ts f yes_approved, yes_approved)
