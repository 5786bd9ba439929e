-- ===== src/Schema.antt =====
-- backend/app/workflows/schemas.py, and the rows of backend/app/models: workflow.py,
-- workflow_event.py, audit_log.py and enums.py. A UUID is a number, and so is a time; the text of
-- either is the platform's. `metadata` and the step states are kept as the JSON that they dump to:
-- nothing in the backend reads inside them.
use Prim.Native.String
use graduation_project.Prelude.{ℕ, String, Bool, true, Option, none, some, ◌&&◌, leb}
pub mod Approval
use graduation_project.Json.{Dict, Items}
use graduation_project.Lifecycle.{WorkflowStatus}

abbrev pub Uuid : Type 0
Uuid = ℕ

abbrev pub Time : Type 0
Time = ℕ

pub data WorkflowType : Type 0 where
  procurement_quotation : WorkflowType

abbrev pub type_value : WorkflowType → String
type_value procurement_quotation = "procurement_quotation"

pub data EventStatus : Type 0 where
  started completed failed retrying : EventStatus

abbrev pub event_status_value : EventStatus → String
event_status_value started = "STARTED"
event_status_value completed = "COMPLETED"
event_status_value failed = "FAILED"
event_status_value retrying = "RETRYING"

pub record WorkflowError : Type 0 where
  pub code : String
  pub message : String
  pub failed_step : Option String
  pub retryable : Bool
  pub details : Dict

pub record WorkflowStateCreate : Type 0 where
  pub workflow_type : WorkflowType
  pub domain : Option String
  pub request : Dict
  pub metadata : Dict

-- `WorkflowState`, with the fields that it inherits from `WorkflowStateCreate`.
pub record WorkflowState : Type 0 where
  pub workflow_type : WorkflowType
  pub domain : Option String
  pub request : Dict
  pub metadata : Dict
  pub workflow_id : String
  pub status : WorkflowStatus
  pub customer : Dict
  pub items : Items
  pub planner : Dict
  pub retrieval : Dict
  pub quotation : Dict
  pub compliance : Dict
  pub validation : Dict
  pub approval : Dict
  pub email : Dict
  pub current_step : Option String
  pub runtime_context : Dict
  pub outputs : Dict
  pub steps : Items
  pub error : Option WorkflowError
  pub retry_count : ℕ
  pub events : Items
  pub created_at : Option Time
  pub updated_at : Option Time

-- `Field(min_length=lo, max_length=hi)` on an optional text.
abbrev pub bounded_text : ℕ → ℕ → Option String → Bool
bounded_text lo hi none = true
bounded_text lo hi (some s) = leb lo (String.count s) && leb (String.count s) hi

abbrev pub bounded_error : Option WorkflowError → Bool
bounded_error none = true
bounded_error (some e) =
    bounded_text 1 100 (some e.code)
    && leb 1 (String.count e.message)
    && bounded_text 1 100 e.failed_step

-- The constraints that the schema's fields put on a state.
abbrev pub within_bounds : WorkflowState → Bool
within_bounds s =
    bounded_text 1 100 s.domain
    && leb 1 (String.count s.workflow_id)
    && bounded_text 1 100 s.current_step
    && bounded_error s.error

pub record WorkflowEventCreate : Type 0 where
  pub workflow_id : Uuid
  pub event_type : String
  pub actor_type : Option String
  pub actor_id : Option Uuid
  pub agent_name : Option String
  pub status : Option EventStatus
  pub message : Option String
  pub payload : Dict

-- A row of `workflow_events`, which is also what `WorkflowEventRead` shows of it.
pub record WorkflowEvent : Type 0 where
  pub event_id : Uuid
  pub content : WorkflowEventCreate
  pub created_at : Time
  pub updated_at : Time

-- A row of `workflows`.
pub record Workflow : Type 0 where
  pub id : Uuid
  pub workflow_type : String
  pub domain : Option String
  pub status : WorkflowStatus
  pub created_by_id : Option Uuid
  pub request_payload : Dict
  pub state_payload : Dict
  pub created_at : Time
  pub updated_at : Time
  pub deleted_at : Option Time

-- A row of `audit_logs`.
pub record AuditLog : Type 0 where
  pub action : String
  pub workflow_id : Option Uuid
  pub actor_type : Option String
  pub actor_id : Option Uuid
  pub resource_type : Option String
  pub resource_id : Option Uuid
  pub payload : Dict
