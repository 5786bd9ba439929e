-- ===== src/Approval/Access.antt =====
-- The roles by which the approval service judges an actor (backend/app/approvals/service.py) and
-- those by which the endpoint's guard does (backend/app/auth/rbac.py).
use graduation_project.Prelude.{
  String, ◌≡◌, refl, sym, ap, ◌∙◌, Bool, true, ◌||◌, not, List, [], ◌∷◌, any, map, ◌==◌, arith, inl,
  inr, Bool-cases, eq_iff, or_cases,
}
use graduation_project.Json.Equality.{any-sorted}
use graduation_project.Schema.Approval.{ApprovalDecisionType}
use graduation_project.Approval.Roles.{
  RoleName, require_any_role, can_submit_approval_decision, workflow_full_access_roles,
  approval_access_agrees, member, not-not, role_value,
}
use graduation_project.Approval.Service.{User, distinct, actor_role_names}

-- A name that is in the list adds nothing to what is in it.
any-seen :
    (p : String → Bool) (x : String) (xs : List String)
    → any (λ y. y == x) xs ≡ true
    → (p x || any p xs) ≡ any p xs
any-seen p x [] seen = cc
any-seen p x (y ∷ ys) seen = elim (or_cases (y == x) _ seen) [
  | inl same ↦ ground (arith, ap p ((eq_iff y x).0 same))
  | inr later ↦ ground (arith, any-seen p x ys later)
]

any-distinct : (p : String → Bool) (xs : List String) → any p (distinct xs) ≡ any p xs
any-distinct p [] = refl
any-distinct p (x ∷ xs) = elim (Bool-cases (any (λ y. y == x) (distinct xs))) [
  | inl seen ↦ rw (seen, sym (any-distinct p xs), any-seen p x (distinct xs) seen) refl
  | inr fresh ↦ rw (fresh, sym (any-distinct p xs)) refl
]

-- A guard judges a user by the names as they are and by the sorted names alike.
pub require_any_role-actor_role_names :
    (allowed : List RoleName) (user : User)
    → require_any_role allowed (actor_role_names user) ≡ require_any_role allowed user.role_names
unfolding require_any_role actor_role_names
require_any_role-actor_role_names allowed user =
    ap (λ b. not (not b)) (any-sorted _ (distinct user.role_names) ∙ any-distinct _ user.role_names)

-- Whoever the guard lets through to the approval endpoint has the roles for every decision.
pub full_access-may_decide :
    (user : User) (decision : ApprovalDecisionType)
    → require_any_role workflow_full_access_roles user.role_names ≡ true
    → can_submit_approval_decision (actor_role_names user) decision ≡ true
full_access-may_decide user decision access =
    (approval_access_agrees (actor_role_names user) decision).0
    ∙ require_any_role-actor_role_names workflow_full_access_roles user
    ∙ access

-- The names of the two roles that may decide.
abbrev pub is_leader : String → Bool
is_leader name = (name == "Admin") || (name == "Manager")

any_leader :
    (names : List String)
    → any (λ x. member x (map role_value workflow_full_access_roles)) names ≡ any is_leader names
any_leader [] = refl
any_leader (x ∷ names) = ground (arith, any_leader names)

-- A user may decide exactly if a role of the user has one of these names.
pub may_decide_lem :
    (user : User) (decision : ApprovalDecisionType)
    → can_submit_approval_decision (actor_role_names user) decision ≡ any is_leader user.role_names
unfolding require_any_role
may_decide_lem user decision =
    (approval_access_agrees (actor_role_names user) decision).0
    ∙ require_any_role-actor_role_names workflow_full_access_roles user
    ∙ not-not _
    ∙ any_leader user.role_names
