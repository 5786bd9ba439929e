-- ===== src/Runtime/Keeps.antt =====
-- How the runtime lets the session change (backend/app/runtime/service.py).
pub mod Runs
use graduation_project.Prelude.{ℕ, String, Bool, true, false, Option, none, some, List, [], ◌∷◌}
use graduation_project.Json.{Json, Dict}
use graduation_project.Lifecycle.{WorkflowStatus}
use graduation_project.Stage.{RuntimeStage}
use graduation_project.Schema.{Uuid, WorkflowState, EventStatus}
use graduation_project.Schema.Approval.{WorkflowResumeRequest}
use graduation_project.Store.{Platform, Session, Error, Result, ok, err, Action, attempt, lift}
use graduation_project.Workflows.Service.{Actor}
use graduation_project.Workflows.Events.{Publisher}
use graduation_project.Workflows.Evolution.{Evolves, Evolves-refl}
use graduation_project.Workflows.Keeps.{Evolving, evolving_rules, Evolving-append_event}
use graduation_project.Workflows.Keeps.Service.{Evolving-get_workflow}
use graduation_project.Workflows.Keeps.Writes.{
  Evolving-transition_workflow_status, Evolving-update_workflow_state,
}
use graduation_project.Runtime.{RuntimeWorkflowState, RuntimeWorkflowResult}
use graduation_project.Runtime.Graph.{Engine}
use graduation_project.Runtime.Rag.{RagAdapter, RagGroundingResult}
use graduation_project.Runtime.Report.{
  append_runtime_event, append_runtime_failed_event, append_node_event,
}
use graduation_project.Runtime.Stages.{
  RuntimeService, Progress, Outcome, going, broke, outcome, guarded, record_grounding, ground_stage,
  grounded_by, ground_stage_if_enabled, run_stage, next_stages, run_stages, run_resumed_stage,
}
use graduation_project.Runtime.Service.{
  transition_to_failed_if_allowed, handle_runtime_failure, finish_run, settle_run, start_run,
  refuse_run, accept_run, run_found, run_workflow,
}
use graduation_project.Runtime.Resume.{
  finish_resume, settle_resume, carry_on, resume_found, resume_workflow,
  resume_workflow_after_approval, request_or_default,
}

module _ {A : Type 0} where
  pub Evolving-attempt : (m : Action A) → Evolving m → Evolving (attempt m)
  unfolding attempt
  Evolving-attempt m h = record { from = h.from }

  pub Evolving-lift : (r : Result A) → Evolving (lift r)
  unfolding lift
  Evolving-lift r = record { from = Evolves-refl }

  Evolving-outcome :
      (stage : RuntimeStage) (p : Progress) (r : Result A) (f : A → Action Outcome)
      → ((a : A) → Evolving (f a))
      → Evolving (outcome stage p r f)
  Evolving-outcome stage p (ok a) f h = h a
  Evolving-outcome stage p (err e) f h = search evolving_rules

  Evolving-guarded :
      (stage : RuntimeStage) (p : Progress) (m : Action A) (f : A → Action Outcome)
      → Evolving m
      → ((a : A) → Evolving (f a))
      → Evolving (guarded stage p m f)
  unfolding guarded
  Evolving-guarded stage p m f h k = search (evolving_rules, Evolving-attempt, Evolving-outcome)

module _ (P : Platform) (publisher : Publisher) (i : Uuid) (actor : Actor) where
  pub Evolving-append_runtime_event :
      (event_type : String) (status : EventStatus) (message : String) (payload : Dict)
      → Evolving (append_runtime_event P publisher i actor event_type status message payload)
  unfolding append_runtime_event
  Evolving-append_runtime_event t st m d = search (evolving_rules, Evolving-append_event)

  pub Evolving-append_runtime_failed_event :
      (message : String) (payload : Dict)
      → Evolving (append_runtime_failed_event P publisher i actor message payload)
  unfolding append_runtime_failed_event
  Evolving-append_runtime_failed_event m d = search Evolving-append_runtime_event

  pub Evolving-append_node_event :
      (stage : RuntimeStage) (event_type : String) (status : EventStatus) (st : WorkflowStatus)
      (message : String) (output : Option Dict) (payload : Dict)
      → Evolving
          (append_node_event P publisher i actor stage event_type status st message output payload)
  unfolding append_node_event
  Evolving-append_node_event stage t s st m o d = search (evolving_rules, Evolving-append_event)

  pub ruleset reporting = (
    Evolving-append_runtime_event, Evolving-append_runtime_failed_event, Evolving-append_node_event,
  )

  module _ (E : Engine) (R : RuntimeService) where
    Evolving-record_grounding :
        (A : RagAdapter) (state : RuntimeWorkflowState) (stage : RuntimeStage)
        (r : Result RagGroundingResult)
        → Evolving (record_grounding E R P publisher i actor A state stage r)
    unfolding record_grounding
    Evolving-record_grounding A state stage (ok result) = search (evolving_rules, reporting)
    Evolving-record_grounding A state stage (err e) = search (evolving_rules, reporting)

    Evolving-ground_stage :
        (A : RagAdapter) (payload : Dict) (stage : RuntimeStage)
        → Evolving (ground_stage E R P publisher i actor A payload stage)
    unfolding ground_stage
    Evolving-ground_stage A payload stage =
        search (evolving_rules, reporting, Evolving-lift, Evolving-record_grounding)

    Evolving-grounded_by :
        (adapter : Option RagAdapter) (payload : Dict) (stage : RuntimeStage)
        → Evolving (grounded_by E R P publisher i actor adapter payload stage)
    Evolving-grounded_by none payload stage = search evolving_rules
    Evolving-grounded_by (some A) payload stage = search (evolving_rules, Evolving-ground_stage)

    Evolving-ground_stage_if_enabled :
        (payload : Dict) (stage : RuntimeStage)
        → Evolving (ground_stage_if_enabled E R P publisher i actor payload stage)
    unfolding ground_stage_if_enabled
    Evolving-ground_stage_if_enabled payload stage = Evolving-grounded_by _ payload stage

    Evolving-run_stage :
        (stream : ℕ → Result Json) (stage : RuntimeStage) (p : Progress)
        → Evolving (run_stage E R P publisher i actor stream stage p)
    unfolding run_stage
    Evolving-run_stage stream stage p =
        search
          (
            evolving_rules, reporting, Evolving-guarded, Evolving-lift,
            Evolving-transition_workflow_status, Evolving-ground_stage_if_enabled,
          )
          depth 24

    Evolving-next_stages :
        (o : Outcome) (f : Progress → Action Outcome)
        → ((p : Progress) → Evolving (f p))
        → Evolving (next_stages E R P publisher i actor o f)
    Evolving-next_stages (going p) f h = h p
    Evolving-next_stages (broke stage p e) f h = search evolving_rules

    pub Evolving-run_stages :
        (stream : ℕ → Result Json) (stages : List RuntimeStage) (p : Progress)
        → Evolving (run_stages E R P publisher i actor stream stages p)
    unfolding run_stages
    Evolving-run_stages stream [] p = search evolving_rules
    Evolving-run_stages stream (stage ∷ stages) p = search (
      evolving_rules,
      Evolving-run_stage,
      Evolving-next_stages,
      Evolving-run_stages stream stages,
    )

    pub Evolving-run_resumed_stage :
        (stream : ℕ → Result Json) (stage : RuntimeStage) (st : WorkflowStatus) (p : Progress)
        → Evolving (run_resumed_stage E R P publisher i actor stream stage st p)
    unfolding run_resumed_stage
    Evolving-run_resumed_stage stream stage st p =
        search (evolving_rules, reporting, Evolving-guarded, Evolving-lift) depth 16
