-- ===== src/Runtime/Waits.antt =====
-- A run with the deterministic handlers, from CREATED to the wait for approval
-- (backend/app/runtime/service.py).
use graduation_project.Prelude.{
  ℕ, ◌+◌, ◌≡◌, refl, sym, ap, ◌∙◌, String, true, some, List, [], ◌∷◌, eq_refl,
}
use mathlib.Core.Path.{subst}
use graduation_project.Json.{Json, Dict, object, empty, entry}
use graduation_project.Lifecycle.{WorkflowStatus, can_transition}
use graduation_project.Stage.{RuntimeStage, stage_value}
use graduation_project.Schema.{Uuid}
use graduation_project.Store.{Platform, Session, Result, ok}
use graduation_project.Workflows.Service.{Actor}
use graduation_project.Workflows.Events.{Publisher}
use graduation_project.Workflows.Contract.{ReadsBack}
use graduation_project.Runtime.{RuntimeWorkflowState, runtime_stage_status}
use graduation_project.Runtime.Graph.{Engine, NodeHandlers}
use graduation_project.Runtime.Stages.{
  Progress, Outcome, going, parsed, payload_with_status, next_stage_payload, execute_without_llm,
  execute_stage, apply_existing_grounding, ground_stage_if_enabled, run_stage, run_stages,
  next_stages,
}
use graduation_project.Runtime.Ready.{Ready, Step, Step-pure, Step-lift, Step-bind, Step-guarded}
use graduation_project.Runtime.Steps.{Step-node_event, Step-transition}
use graduation_project.Runtime.Loop.{
  is_valid_runtime, ReadsRuntime, node, nodes, node-is_valid, plain_service, Feeds, Route, last_of,
  node_events,
}

module _ (P : Platform) (law : ReadsBack P) (publisher : Publisher) (actor : Actor) (i : Uuid)
    (E : Engine) (engine : ReadsRuntime E) (handlers : NodeHandlers) (all : List RuntimeStage)
    (graph : Dict → ℕ → Result Json) where
  -- How far the loop is: the place in the stream, the status at hand, and the runtime state.
  pub record Reached (st : WorkflowStatus) (n : ℕ) (r : RuntimeWorkflowState) (p : Progress)
      : Type 0 where
    pub place : p.position ≡ n
    pub status : p.current.status ≡ st
    pub entered : WorkflowStatus
    pub reads : E.validate_runtime p.payload ≡ some (record r { status = entered })
    pub valid : is_valid_runtime r ≡ true

  abbrev pub Goes : WorkflowStatus → ℕ → RuntimeWorkflowState → Outcome → Type 0
  Goes st n r o = (p : Progress) × (o ≡ going p) × Reached st n r p

  step_stage :
      (stream : ℕ → Result Json) (stage : RuntimeStage) (st : WorkflowStatus) (n : ℕ)
      (r : RuntimeWorkflowState) (p : Progress) (s : Session)
      → Ready P i st s
      → can_transition st (runtime_stage_status stage) ≡ true
      → Reached st n r p
      → (stream n
          ≡ ok (object (entry (stage_value stage) (object (E.dump_runtime (node stage r))) empty)))
      → Step P i
          (run_stage E (plain_service handlers all graph) P publisher i actor stream stage p)
          s
          (runtime_stage_status stage)
          ("workflow.node.started" ∷ "workflow.node.completed" ∷ [])
          (Goes (runtime_stage_status stage) (n + 1) (node stage r))
  unfolding run_stage execute_stage execute_without_llm next_stage_payload apply_existing_grounding
      ground_stage_if_enabled payload_with_status parsed
  step_stage stream stage st n r p s ready allowed at fed =
      let to : WorkflowStatus = runtime_stage_status stage in
      let two : List String = "workflow.node.started" ∷ "workflow.node.completed" ∷ [] in
      let one : List String = "workflow.node.completed" ∷ [] in
      let next : RuntimeWorkflowState = node stage r in
      let valid : is_valid_runtime next ≡ true = node-is_valid stage r at.valid in
      Step-guarded P i s to to [] two stage p _ _ _ _
        (Step-transition P law publisher actor i s st ready to _ allowed)
        λ current moved t1 ready1.
          Step-guarded P i t1 to to [] two stage _ _ _ (λ d. Unit) _
            (Step-lift P i t1 to _ (E.dump_runtime (record r { status = to })) _ (rw at.reads refl)
              tt ready1)
            λ d1 e1 t2 ready2.
              Step-guarded P i t2 to to ("workflow.node.started" ∷ []) one stage _ _ _ _ _
                (Step-node_event P law publisher actor i t2 to ready2 stage _ _ _ _ _ _)
                λ u eu t3 ready3.
                  Step-guarded P i t3 to to [] one stage _ _ _ (λ d. Unit) _
                    (Step-pure P i t3 to d1 _ tt ready3)
                    λ d2 e2 t4 ready4.
                      Step-guarded P i t4 to to [] one stage _ _ _
                        (λ x. x ≡ (E.dump_runtime next, n + 1)) _
                        (Step-lift P i t4 to _ (E.dump_runtime next, n + 1) _
                          (rw (at.place, fed, eq_refl (stage_value stage)) refl) refl ready4)
                        λ x ex t5 ready5.
                          Step-guarded P i t5 to to [] one stage _ _ _
                            (λ d. d ≡ E.dump_runtime next) _
                            (Step-lift P i t5 to _ x.0 _ refl (ap (λ y. y.0) ex) ready5)
                            λ d3 e3 t6 ready6.
                              Step-guarded P i t6 to to [] one stage _ _ _
                                (λ d. d ≡ E.dump_runtime (record next { status = to })) _
                                (Step-lift P i t6 to _
                                  (E.dump_runtime (record next { status = to })) _
                                  (rw (e3, engine.reads next valid) refl) refl ready6)
                                λ d4 e4 t7 ready7.
                                  Step-guarded P i t7 to to [] one stage _ _ _ (λ r'. Unit) _
                                    (Step-lift P i t7 to _ (record next { status = to }) _
                                      (rw (e4, engine.reads (record next { status = to }) valid)
                                        refl)
                                      tt ready7)
                                    λ r' er t8 ready8.
                                      Step-guarded P i t8 to to one [] stage _ _ _ _ _
                                        (Step-node_event P law publisher actor i t8 to ready8 stage
                                          _ _ _ _ _ _)
                                        λ v ev t9 ready9.
                                          Step-pure P i t9 to _ _
                                            (
                                              _,
                                              refl,
                                              record {
                                                place = ap (λ y. y.1) ex;
                                                status = moved;
                                                entered = to;
                                                reads =
                                                    ap E.validate_runtime e4
                                                    ∙ engine.reads (record next { status = to })
                                                        valid;
                                                valid = valid;
                                              },
                                            )
                                            ready9

  pub step_stages :
      (stream : ℕ → Result Json) (stages : List RuntimeStage) (st : WorkflowStatus) (n : ℕ)
      (r : RuntimeWorkflowState) (p : Progress) (s : Session)
      → Ready P i st s
      → Route st stages
      → Reached st n r p
      → Feeds E stream n stages r
      → Step P i
          (run_stages E (plain_service handlers all graph) P publisher i actor stream stages p)
          s
          (last_of st stages)
          (node_events stages)
          (λ o. (k : ℕ) × Goes (last_of st stages) k (nodes stages r) o)
  unfolding run_stages
  step_stages stream [] st n r p s ready route at fed =
      Step-pure P i s st _ _ (n, (p, refl, at)) ready
  step_stages stream (stage ∷ stages) st n r p s ready route at fed =
      let to : WorkflowStatus = runtime_stage_status stage in
      Step-bind P i s to (last_of to stages)
        ("workflow.node.started" ∷ "workflow.node.completed" ∷ []) (node_events stages) _ _ _ _
        (step_stage stream stage st n r p s ready route.0 at fed.0)
        λ o reached t ready1.
          let (q, going_on, at1) = reached in
          subst
            (λ o'.
              Step P i
                (next_stages E (plain_service handlers all graph) P publisher i actor o' (λ q.
                  run_stages E (plain_service handlers all graph) P publisher i actor stream stages
                    q))
                t (last_of to stages) (node_events stages)
                (λ o. (k : ℕ) × Goes (last_of to stages) k (nodes stages (node stage r)) o))
            (sym going_on)
            (step_stages stream stages to (n + 1) (node stage r) q t ready1 route.1 at1 fed.1)
