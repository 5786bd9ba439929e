-- ===== src/Lifecycle.antt =====
-- backend/app/models/enums.py and backend/app/workflows/lifecycle.py: the workflow statuses, the
-- table of allowed transitions, and the checks made against it. The `isinstance` guards of the
-- source (TypeError) are the types here.
pub mod Table
pub mod Paths
pub mod Gate
mod Examples
use graduation_project.Prelude.{
  ℕ, String, Bool, Option, none, some, List, [], ◌∷◌, map, nat_eq, any, if◌then◌else◌,
}

pub data WorkflowStatus : Type 0 where
  created planning retrieving calculating checking_compliance validating : WorkflowStatus
  waiting_approval approved rejected generating_email completed failed cancelled : WorkflowStatus

-- Enum members are equal when they are the same member: their place in the class tells them apart.
abbrev position : WorkflowStatus → ℕ
position created = 0
position planning = 1
position retrieving = 2
position calculating = 3
position checking_compliance = 4
position validating = 5
position waiting_approval = 6
position approved = 7
position rejected = 8
position generating_email = 9
position completed = 10
position failed = 11
position cancelled = 12

abbrev pub same_status : WorkflowStatus → WorkflowStatus → Bool
same_status a b = nat_eq (position a) (position b)

abbrev pub status_value : WorkflowStatus → String
status_value created = "CREATED"
status_value planning = "PLANNING"
status_value retrieving = "RETRIEVING"
status_value calculating = "CALCULATING"
status_value checking_compliance = "CHECKING_COMPLIANCE"
status_value validating = "VALIDATING"
status_value waiting_approval = "WAITING_APPROVAL"
status_value approved = "APPROVED"
status_value rejected = "REJECTED"
status_value generating_email = "GENERATING_EMAIL"
status_value completed = "COMPLETED"
status_value failed = "FAILED"
status_value cancelled = "CANCELLED"

abbrev pub workflow_statuses : List WorkflowStatus
workflow_statuses =
    created ∷ planning ∷ retrieving ∷ calculating ∷ checking_compliance ∷ validating
    ∷ waiting_approval ∷ approved ∷ rejected ∷ generating_email ∷ completed ∷ failed ∷ cancelled
    ∷ []

abbrev pub initial_workflow_status : WorkflowStatus
initial_workflow_status = created

abbrev pub terminal_workflow_statuses : List WorkflowStatus
terminal_workflow_statuses = completed ∷ failed ∷ cancelled ∷ rejected ∷ []

-- `ALLOWED_WORKFLOW_TRANSITIONS`; a frozenset is the list of its members.
unfoldable pub get_allowed_transitions : WorkflowStatus → List WorkflowStatus
get_allowed_transitions created = planning ∷ cancelled ∷ []
get_allowed_transitions planning = retrieving ∷ failed ∷ cancelled ∷ []
get_allowed_transitions retrieving = calculating ∷ failed ∷ cancelled ∷ []
get_allowed_transitions calculating = checking_compliance ∷ failed ∷ cancelled ∷ []
get_allowed_transitions checking_compliance = validating ∷ failed ∷ cancelled ∷ []
get_allowed_transitions validating = waiting_approval ∷ failed ∷ cancelled ∷ []
get_allowed_transitions waiting_approval = approved ∷ rejected ∷ cancelled ∷ []
get_allowed_transitions approved = generating_email ∷ []
get_allowed_transitions generating_email = completed ∷ failed ∷ []
get_allowed_transitions completed = []
get_allowed_transitions failed = []
get_allowed_transitions cancelled = []
get_allowed_transitions rejected = []

unfoldable pub is_terminal_status : WorkflowStatus → Bool
is_terminal_status status = any (same_status status) terminal_workflow_statuses

unfoldable pub can_transition : WorkflowStatus → WorkflowStatus → Bool
unfolding get_allowed_transitions
can_transition from_status to_status =
    any (same_status to_status) (get_allowed_transitions from_status)

-- `InvalidWorkflowTransitionError`, with the attributes that it is raised with.
pub record InvalidTransition : Type 0 where
  pub from_status : WorkflowStatus
  pub to_status : WorkflowStatus
  pub allowed_statuses : List WorkflowStatus

-- `none` is the silent return; `some` is what is raised.
unfoldable pub validate_transition : WorkflowStatus → WorkflowStatus → Option InvalidTransition
unfolding can_transition get_allowed_transitions
validate_transition f t =
    if can_transition f t
    then none
    else some
        (record { from_status = f; to_status = t; allowed_statuses = get_allowed_transitions f })

-- `workflow_status_values` and `list_status_values`
unfoldable pub workflow_status_values : List String
workflow_status_values = map status_value workflow_statuses

pub record WorkflowLifecycleInfo : Type 0 where
  pub statuses : List WorkflowStatus
  pub initial_status : WorkflowStatus
  pub terminal_statuses : List WorkflowStatus

unfoldable pub get_workflow_lifecycle_info : WorkflowLifecycleInfo
get_workflow_lifecycle_info = record {
  statuses = workflow_statuses;
  initial_status = initial_workflow_status;
  terminal_statuses = terminal_workflow_statuses;
}
