-- ===== src/Schema/Approval.antt =====
-- backend/app/approvals/schemas.py: the decisions, the requests and the history records.
use graduation_project.Prelude.{ℕ, String, Bool, Option, List, nat_eq}
use graduation_project.Json.{Dict}
use graduation_project.Lifecycle.{WorkflowStatus}
use graduation_project.Schema.{Uuid, Time}

pub data ApprovalDecisionType : Type 0 where
  approve reject request_changes : ApprovalDecisionType

abbrev decision_position : ApprovalDecisionType → ℕ
decision_position approve = 0
decision_position reject = 1
decision_position request_changes = 2

abbrev pub same_decision : ApprovalDecisionType → ApprovalDecisionType → Bool
same_decision a b = nat_eq (decision_position a) (decision_position b)

abbrev pub decision_value : ApprovalDecisionType → String
decision_value approve = "approve"
decision_value reject = "reject"
decision_value request_changes = "request_changes"

pub record ApprovalDecisionRequest : Type 0 where
  pub decision : ApprovalDecisionType
  pub comment : Option String
  pub request_id : Option String
  pub metadata : Dict

pub record ApprovalRecord : Type 0 where
  pub decision_id : Uuid
  pub workflow_id : Uuid
  pub decision : ApprovalDecisionType
  pub actor_id : Uuid
  pub actor_email : Option String
  pub actor_roles : List String
  pub comment : Option String
  pub decided_at : Time
  pub previous_status : WorkflowStatus
  pub next_status : Option WorkflowStatus
  pub request_id : Option String
  pub metadata : Dict

pub record ApprovalDecisionResponse : Type 0 where
  pub workflow_id : Uuid
  pub approval : ApprovalRecord
  pub previous_status : WorkflowStatus
  pub next_status : WorkflowStatus
  pub can_resume : Bool
  pub resume_recommended : Bool

pub record ApprovalHistoryResponse : Type 0 where
  pub workflow_id : Uuid
  pub approvals : List ApprovalRecord
  pub has_final_decision : Bool
  pub can_resume : Bool

pub record WorkflowResumeRequest : Type 0 where
  pub request_id : Option String
  pub metadata : Dict
