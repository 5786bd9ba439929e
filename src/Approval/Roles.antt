-- ===== src/Approval/Roles.antt =====
-- backend/app/auth/rbac.py and backend/app/approvals/policies.py: roles by name, and the role sets
-- that the endpoints and the approval policies ask for. A set of names is the list of its members.
use graduation_project.Prelude.{
  String, ◌≡◌, refl, Bool, true, false, not, List, [], ◌∷◌, map, any, all, ◌==◌, if◌then◌else◌,
  Bool-cases, eq_iff, inl, inr, or_cases, or_left, or_right, and_left, and_right,
}
use graduation_project.Schema.Approval.{
  ApprovalDecisionType, approve, reject, request_changes, same_decision,
}

pub data RoleName : Type 0 where
  admin manager sales legal finance viewer : RoleName

abbrev pub role_value : RoleName → String
role_value admin = "Admin"
role_value manager = "Manager"
role_value sales = "Sales"
role_value legal = "Legal"
role_value finance = "Finance"
role_value viewer = "Viewer"

abbrev pub role_names : List RoleName
role_names = admin ∷ manager ∷ sales ∷ legal ∷ finance ∷ viewer ∷ []

abbrev pub member : String → List String → Bool
member s = any (λ t. s == t)

-- `a.isdisjoint(b)` and `a.issubset(b)`
abbrev pub disjoint : List String → List String → Bool
disjoint xs ys = not (any (λ x. member x ys) xs)

abbrev pub subset : List String → List String → Bool
subset xs ys = all (λ x. member x ys) xs

-- The dependencies answer whether the user passes; otherwise they raise the 403 error.
unfoldable pub require_any_role : List RoleName → List String → Bool
require_any_role allowed user_role_names = not (disjoint user_role_names (map role_value allowed))

unfoldable pub require_all_roles : List RoleName → List String → Bool
require_all_roles required user_role_names = subset (map role_value required) user_role_names

abbrev pub require_roles : List RoleName → List String → Bool
require_roles = require_any_role

abbrev pub require_admin : List String → Bool
require_admin = require_any_role (admin ∷ [])

abbrev pub approval_final_decision_roles : List RoleName
approval_final_decision_roles = admin ∷ manager ∷ []

abbrev pub approval_request_changes_roles : List RoleName
approval_request_changes_roles = approval_final_decision_roles

abbrev pub approval_resume_roles : List RoleName
approval_resume_roles = approval_final_decision_roles

abbrev pub approval_read_roles : List RoleName
approval_read_roles = role_names

unfoldable pub can_submit_approval_decision : List String → ApprovalDecisionType → Bool
can_submit_approval_decision names decision = not (
    disjoint names (
      map role_value (
        if same_decision decision request_changes
        then approval_request_changes_roles
        else approval_final_decision_roles)))

unfoldable pub can_resume_workflow : List String → Bool
can_resume_workflow names = not (disjoint names (map role_value approval_resume_roles))

unfoldable pub can_read_approval_history : List String → Bool
can_read_approval_history names = not (disjoint names (map role_value approval_read_roles))

-- `WORKFLOW_FULL_ACCESS_ROLES`, `WORKFLOW_CREATE_ROLES` and `WORKFLOW_READ_ROLES`
-- (backend/app/api/v1/workflows.py)
abbrev pub workflow_full_access_roles : List RoleName
workflow_full_access_roles = admin ∷ manager ∷ []

abbrev pub workflow_create_roles : List RoleName
workflow_create_roles = admin ∷ manager ∷ sales ∷ []

abbrev pub workflow_read_roles : List RoleName
workflow_read_roles = admin ∷ manager ∷ sales ∷ legal ∷ finance ∷ viewer ∷ []

-- The endpoint's guard and the service's policy agree: whoever is let through to the approval
-- endpoint may submit every decision and resume, and whoever may decide or resume is let through.
pub approval_access_agrees :
    (names : List String) (decision : ApprovalDecisionType)
    → (can_submit_approval_decision names decision ≡ require_roles workflow_full_access_roles names)
      × (can_resume_workflow names ≡ require_roles workflow_full_access_roles names)
      × (can_read_approval_history names ≡ require_roles workflow_read_roles names)
unfolding can_submit_approval_decision can_resume_workflow can_read_approval_history
    require_any_role
approval_access_agrees names approve = (refl, refl, refl)
approval_access_agrees names reject = (refl, refl, refl)
approval_access_agrees names request_changes = (refl, refl, refl)

pub not-not : (b : Bool) → not (not b) ≡ b
not-not true = refl
not-not false = refl

member-subset :
    (x : String) (ys : List String) (zs : List String)
    → member x ys ≡ true
    → subset ys zs ≡ true
    → member x zs ≡ true
member-subset x [] zs m h = cc
member-subset x (y ∷ ys) zs m sub = elim (Bool-cases (x == y)) [
  | inl same ↦ rw ((eq_iff x y).0 same) (and_left _ _ sub)
  | inr other ↦ member-subset x ys zs (rw other at m) (and_right _ _ sub)
]

overlap_subset :
    (names : List String) (ys zs : List String)
    → subset ys zs ≡ true
    → any (λ x. member x ys) names ≡ true
    → any (λ x. member x zs) names ≡ true
overlap_subset [] ys zs sub h = cc
overlap_subset (x ∷ names) ys zs sub h = elim (or_cases (member x ys) _ h) [
  | inl here ↦ or_left _ _ (member-subset x ys zs here sub)
  | inr later ↦ or_right _ _ (overlap_subset names ys zs sub later)
]

-- A user whom the guard for some roles lets through passes every guard that allows these roles and
-- more.
pub require_any_role_mono :
    (some_roles more_roles : List RoleName) (names : List String)
    → subset (map role_value some_roles) (map role_value more_roles) ≡ true
    → require_any_role some_roles names ≡ true
    → require_any_role more_roles names ≡ true
unfolding require_any_role
require_any_role_mono some_roles more_roles names sub h = rw (not-not _) (
    overlap_subset names (map role_value some_roles) (map role_value more_roles) sub
      (rw (not-not _) at h))
