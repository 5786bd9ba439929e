-- ===== src/Runtime/Keeps/Runs.antt =====
-- How the two runs of the runtime let the session change (backend/app/runtime/service.py).
use graduation_project.Prelude.{String, Option, none, some}
use graduation_project.Stage.{RuntimeStage}
use graduation_project.Schema.{Uuid, WorkflowState}
use graduation_project.Schema.Approval.{WorkflowResumeRequest}
use graduation_project.Store.{Platform, Session, Error}
use graduation_project.Workflows.Service.{Actor}
use graduation_project.Workflows.Events.{Publisher}
use graduation_project.Workflows.Evolution.{Evolves}
use graduation_project.Workflows.Keeps.{Evolving, evolving_rules}
use graduation_project.Workflows.Keeps.Service.{Evolving-get_workflow}
use graduation_project.Workflows.Keeps.Writes.{
  Evolving-transition_workflow_status, Evolving-update_workflow_state,
}
use graduation_project.Runtime.{RuntimeWorkflowState}
use graduation_project.Runtime.Graph.{Engine}
use graduation_project.Runtime.Stages.{RuntimeService, Progress, Outcome, going, broke}
use graduation_project.Runtime.Service.{
  transition_to_failed_if_allowed, handle_runtime_failure, finish_run, settle_run, start_run,
  refuse_run, accept_run, run_found, run_workflow,
}
use graduation_project.Runtime.Resume.{
  finish_resume, settle_resume, carry_on, resume_found, resume_workflow,
  resume_workflow_after_approval, request_or_default,
}
use graduation_project.Runtime.Keeps.{
  Evolving-attempt, Evolving-lift, reporting, Evolving-run_stages, Evolving-run_resumed_stage,
}

module _ (P : Platform) (publisher : Publisher) (i : Uuid) (actor : Actor) where
  module _ (E : Engine) where
    Evolving-transition_to_failed :
        (w : WorkflowState) (reason : String)
        → Evolving (transition_to_failed_if_allowed E P publisher i actor w reason)
    unfolding transition_to_failed_if_allowed
    Evolving-transition_to_failed w reason =
        search
          (evolving_rules, Evolving-attempt, Evolving-lift, Evolving-transition_workflow_status)

    Evolving-handle_runtime_failure :
        (stage : RuntimeStage) (p : Progress) (e : Error)
        → Evolving (handle_runtime_failure E P publisher i actor stage p e)
    unfolding handle_runtime_failure
    Evolving-handle_runtime_failure stage p e =
        search
          (
            evolving_rules, reporting, Evolving-transition_to_failed, Evolving-lift,
            Evolving-update_workflow_state,
          )
          depth 12

    Evolving-finish_run : (p : Progress) → Evolving (finish_run E P publisher i actor p)
    unfolding finish_run
    Evolving-finish_run p =
        search (evolving_rules, reporting, Evolving-lift, Evolving-update_workflow_state) depth 12

    Evolving-settle_run : (o : Outcome) → Evolving (settle_run E P publisher i actor o)
    unfolding settle_run
    Evolving-settle_run (going p) = Evolving-finish_run p
    Evolving-settle_run (broke stage p e) = search (evolving_rules, Evolving-handle_runtime_failure)

    Evolving-start_run :
        (R : RuntimeService) (w : WorkflowState) (state : Option RuntimeWorkflowState)
        → Evolving (start_run E P publisher i actor R w state)
    unfolding start_run
    Evolving-start_run R w none = search (evolving_rules, reporting)
    Evolving-start_run R w (some state) =
        search (evolving_rules, Evolving-run_stages, Evolving-settle_run)

    Evolving-refuse_run : (w : WorkflowState) → Evolving (refuse_run E P publisher i actor w)
    unfolding refuse_run
    Evolving-refuse_run w = search (evolving_rules, reporting)

    Evolving-accept_run :
        (R : RuntimeService) (w : WorkflowState) → Evolving (accept_run E P publisher i actor R w)
    unfolding accept_run
    Evolving-accept_run R w = search (evolving_rules, reporting, Evolving-lift, Evolving-start_run)

    Evolving-run_found :
        (R : RuntimeService) (w : WorkflowState) → Evolving (run_found E P publisher i actor R w)
    unfolding run_found
    Evolving-run_found R w = search (evolving_rules, Evolving-refuse_run, Evolving-accept_run)

    running : (R : RuntimeService) → Evolving (run_workflow E P publisher i actor R)
    unfolding run_workflow
    running R = search (evolving_rules, Evolving-get_workflow, Evolving-run_found)

    -- Whatever a run returns or raises, with whatever handlers, graph and adapters, every workflow
    -- moves along the transition table alone, and events and audit rows are only added.
    pub run_workflow-Evolves :
        (R : RuntimeService) (s : Session) → Evolves s (run_workflow E P publisher i actor R s).1
    run_workflow-Evolves R s = (running R).from s

    module _ (request : WorkflowResumeRequest) where
      Evolving-finish_resume :
          (p : Progress) → Evolving (finish_resume E P publisher i actor request p)
      unfolding finish_resume
      Evolving-finish_resume p =
          search
            (
              evolving_rules, reporting, Evolving-lift, Evolving-transition_workflow_status,
              Evolving-update_workflow_state,
            )
            depth 14

      Evolving-settle_resume :
          (o : Outcome) → Evolving (settle_resume E P publisher i actor request o)
      unfolding settle_resume
      Evolving-settle_resume (going p) = Evolving-finish_resume p
      Evolving-settle_resume (broke stage p e) =
          search (evolving_rules, reporting, Evolving-handle_runtime_failure)

      Evolving-carry_on :
          (R : RuntimeService) (w : WorkflowState)
          → Evolving (carry_on E P publisher i actor request R w)
      unfolding carry_on
      Evolving-carry_on R w =
          search
            (
              evolving_rules, reporting, Evolving-lift, Evolving-transition_workflow_status,
              Evolving-run_resumed_stage, Evolving-settle_resume,
            )
            depth 16

      Evolving-resume_found :
          (R : RuntimeService) (w : WorkflowState) (o : Option Error)
          → Evolving (resume_found E P publisher i actor request R w o)
      unfolding resume_found
      Evolving-resume_found R w none = Evolving-carry_on R w
      Evolving-resume_found R w (some e) = search (evolving_rules, reporting)

      resuming : (R : RuntimeService) → Evolving (resume_workflow E P publisher i actor request R)
      unfolding resume_workflow
      resuming R = search (evolving_rules, Evolving-get_workflow, Evolving-resume_found) depth 12

-- Whatever a resume returns or raises, with whatever handlers, graph and adapters, every workflow
-- moves along the transition table alone, and events and audit rows are only added.
pub resume_workflow_after_approval-Evolves :
    (E : Engine) (P : Platform) (publisher : Publisher) (R : RuntimeService) (i : Uuid)
    (request : Option WorkflowResumeRequest) (actor : Actor) (s : Session)
    → Evolves s (resume_workflow_after_approval E P publisher R i request actor s).1
unfolding resume_workflow_after_approval
resume_workflow_after_approval-Evolves E P publisher R i request actor s =
    (resuming P publisher i actor E (request_or_default request) R).from s
