-- ===== src/Approval/Keeps.antt =====
-- How a decision lets the session change (backend/app/approvals/service.py).
use graduation_project.Prelude.{String, Bool, Option, List}
use graduation_project.Lifecycle.{WorkflowStatus}
use graduation_project.Schema.{Uuid, WorkflowState}
use graduation_project.Schema.Approval.{ApprovalDecisionRequest, ApprovalRecord}
use graduation_project.Store.{Platform, Session}
use graduation_project.Workflows.Service.{Actor}
use graduation_project.Workflows.Events.{Publisher}
use graduation_project.Workflows.Evolution.{Evolves}
use graduation_project.Workflows.Keeps.{
  Evolving, evolving_rules, Evolving-append_event, Evolving-append_audit_log,
}
use graduation_project.Workflows.Keeps.Service.{Evolving-get_workflow}
use graduation_project.Workflows.Keeps.Writes.{
  Evolving-transition_workflow_status, Evolving-update_workflow_state,
}
use graduation_project.Approval.Service.{
  User, decide_status, announce, record_decision, submit_approval_decision,
}

module _ (P : Platform) (publisher : Publisher) where
  Evolving-announce :
      (i : Uuid) (r : ApprovalRecord) (actor : User) (can_resume : Bool)
      → Evolving (announce P publisher i r actor can_resume)
  unfolding announce
  Evolving-announce i r actor can_resume =
      search (evolving_rules, Evolving-append_event, Evolving-append_audit_log) depth 8

  Evolving-record_decision :
      (i : Uuid) (r : ApprovalRecord) (existing : List ApprovalRecord) (actor : User)
      (persisted : WorkflowState) (previous next : WorkflowStatus)
      → Evolving (record_decision P publisher i r existing actor persisted previous next)
  unfolding record_decision
  Evolving-record_decision i r existing actor persisted previous next =
      search (evolving_rules, Evolving-update_workflow_state, Evolving-announce) depth 8

  Evolving-decide_status :
      (i : Uuid) (next : WorkflowStatus) (current : WorkflowState) (actor : Actor)
      (reason : Option String)
      → Evolving (decide_status P i next current actor reason)
  unfolding decide_status
  Evolving-decide_status i next current actor reason =
      search (evolving_rules, Evolving-transition_workflow_status)

  submitting :
      (i : Uuid) (request : ApprovalDecisionRequest) (actor : User)
      → Evolving (submit_approval_decision P publisher i request actor)
  unfolding submit_approval_decision
  submitting i request actor =
      search
        (evolving_rules, Evolving-get_workflow, Evolving-decide_status, Evolving-record_decision)
        depth 16

  -- Whatever a decision returns or raises, every workflow moves along the transition table alone,
  -- and events and audit rows are only added.
  pub submit_approval_decision-Evolves :
      (i : Uuid) (request : ApprovalDecisionRequest) (actor : User) (s : Session)
      → Evolves s (submit_approval_decision P publisher i request actor s).1
  submit_approval_decision-Evolves i request actor s = (submitting i request actor).from s
