-- ===== src/Runtime.antt =====
-- backend/app/runtime/schemas.py: the state that the runtime works on, and the dictionary of stage
-- outputs in insertion order. `events` and `items` are the JSON arrays of the workflow state.
pub mod Texts
pub mod Nodes
pub mod Graph
pub mod Adapter
pub mod Convert
pub mod Rag
pub mod Report
pub mod Stages
pub mod Service
pub mod Resume
pub mod Keeps
pub mod Outputs
pub mod Roundtrip
pub mod Laws
pub mod Evidence
pub mod Reported
pub mod Refusal
pub mod Ready
pub mod Steps
pub mod Loop
pub mod Waits
pub mod Run
pub mod Success
pub mod Sample
mod Examples
use graduation_project.Prelude.{
  ℕ, String, Bool, Option, none, some, List, [], ◌∷◌, any, not, ◌==◌, if◌then◌else◌,
}
use graduation_project.Json.{Dict, Items}
use graduation_project.Lifecycle.{
  WorkflowStatus, planning, retrieving, calculating, checking_compliance, validating,
  waiting_approval, generating_email,
}
use graduation_project.Stage.{
  RuntimeStage, planner, retrieval, quotation, compliance, validation, approval, email_preparation,
  same_stage,
}
use graduation_project.Schema.{WorkflowType, WorkflowError}

-- `dict[RuntimeStage, dict[str, Any]]`
abbrev pub StageOutputs : Type 0
StageOutputs = List (RuntimeStage × Dict)

pub record RuntimeWorkflowState : Type 0 where
  pub workflow_id : String
  pub workflow_type : WorkflowType
  pub domain : Option String
  pub status : WorkflowStatus
  pub request : Dict
  pub metadata : Dict
  pub customer : Dict
  pub items : Items
  pub current_stage : Option RuntimeStage
  pub completed_stages : List RuntimeStage
  pub failed_stage : Option RuntimeStage
  pub runtime_context : Dict
  pub stage_outputs : StageOutputs
  pub outputs : Dict
  pub steps : Items
  pub error : Option WorkflowError
  pub retry_count : ℕ
  pub events : Items

pub record RuntimeWorkflowResult : Type 0 where
  pub state : RuntimeWorkflowState
  pub completed : Bool
  pub failed : Bool
  pub message : Option String

-- `stage_outputs.get(stage)`
abbrev pub output_of : RuntimeStage → StageOutputs → Option Dict
output_of stage [] = none
output_of stage ((t, d) ∷ outs) = if same_stage t stage then some d else output_of stage outs

-- `stage_outputs[stage] = output`
abbrev pub put_output : RuntimeStage → Dict → StageOutputs → StageOutputs
put_output stage d [] = (stage, d) ∷ []
put_output stage d ((t, e) ∷ outs) =
    if same_stage t stage then (t, d) ∷ outs else (t, e) ∷ put_output stage d outs

-- `stage in stages`
abbrev pub has_stage : RuntimeStage → List RuntimeStage → Bool
has_stage stage = any (same_stage stage)

-- `PRE_APPROVAL_RUNTIME_STAGES` and `POST_APPROVAL_RUNTIME_STAGES` of service.py
abbrev pub pre_approval_runtime_stages : List RuntimeStage
pre_approval_runtime_stages =
    planner ∷ retrieval ∷ quotation ∷ compliance ∷ validation ∷ approval ∷ []

abbrev pub post_approval_runtime_stages : List RuntimeStage
post_approval_runtime_stages = email_preparation ∷ []

-- `RUNTIME_STAGE_STATUSES` of service.py
abbrev pub runtime_stage_status : RuntimeStage → WorkflowStatus
runtime_stage_status planner = planning
runtime_stage_status retrieval = retrieving
runtime_stage_status quotation = calculating
runtime_stage_status compliance = checking_compliance
runtime_stage_status validation = validating
runtime_stage_status approval = waiting_approval
runtime_stage_status email_preparation = generating_email
