-- ===== src/Runtime/Success.antt =====
-- A run of the runtime service with the deterministic handlers and no language model or grounding
-- (backend/app/runtime/service.py).
use graduation_project.Prelude.{
  ◌≡◌, refl, sym, ap, ◌∙◌, String, Bool, true, false, none, some, List, [], ◌∷◌, ◌++◌, ◌+◌, map,
  arith, not, if◌then◌else◌,
}
use mathlib.Core.Path.{subst}
use graduation_project.Lifecycle.{created, waiting_approval, can_transition, same_status}
use graduation_project.Stage.{
  planner, retrieval, quotation, compliance, validation, approval, stage_value, runtime_stages,
}
use graduation_project.Schema.{Uuid, Workflow, WorkflowState}
use graduation_project.Store.{Platform, Session, Action, ok, find_workflow}
use graduation_project.Workflows.Service.{Actor}
use graduation_project.Workflows.Events.{Publisher}
use graduation_project.Workflows.Contract.{ReadsBack, IsStored, with_columns}
use graduation_project.Runtime.{
  RuntimeWorkflowState, RuntimeWorkflowResult, pre_approval_runtime_stages,
}
use graduation_project.Runtime.Convert.{workflow_state_to_runtime_state}
use graduation_project.Runtime.Nodes.{deterministic_node_handler}
use graduation_project.Runtime.Graph.{
  Engine, GraphEdge, NodeHandlers, edges_from, wrap_runtime_node_handler, build_workflow_graph,
  graph_nodes, runtime_graph_topology, validate_runtime_node_handlers,
}
use graduation_project.Runtime.Stages.{RuntimeService}
use graduation_project.Runtime.Service.{
  new_runtime_service, settle_run, start_run, accept_run, run_found, run_workflow,
}
use graduation_project.Runtime.Refusal.{run_workflow-found}
use graduation_project.Runtime.Ready.{types, Ready, Step, Step-bind}
use graduation_project.Runtime.Steps.{Step-runtime_event}
use graduation_project.Runtime.Loop.{
  is_valid_runtime, ReadsRuntime, StreamsInOrder, nodes, plain_service, Feeds, linear-Feeds,
  node_events, deterministic_nodes,
}
use graduation_project.Runtime.Waits.{step_stages}
use graduation_project.Runtime.Run.{waiting_result, bind-lift, id-nodes, converted-id, step_finish}

-- `create_deterministic_node_handlers()`
abbrev pub deterministic_node_handlers : NodeHandlers
deterministic_node_handlers = map (λ s. (s, deterministic_node_handler s)) runtime_stages

abbrev pre_approval_edges : Engine → List GraphEdge
pre_approval_edges E =
    (E.start_node, stage_value planner)
    ∷ edges_from E planner (retrieval ∷ quotation ∷ compliance ∷ validation ∷ approval ∷ [])

-- The service that `RuntimeService(workflow_service, workflow_event_service)` builds.
abbrev pub deterministic_service : Engine → RuntimeService
deterministic_service E =
    plain_service deterministic_node_handlers pre_approval_runtime_stages
      (E.stream (deterministic_nodes E pre_approval_runtime_stages) (pre_approval_edges E))

new_runtime_service-default :
    (E : Engine) (P : Platform) (publisher : Publisher)
    → new_runtime_service E P publisher deterministic_node_handlers pre_approval_runtime_stages
        false none false none
      ≡ ok (deterministic_service E)
unfolding new_runtime_service build_workflow_graph graph_nodes validate_runtime_node_handlers
    runtime_graph_topology
new_runtime_service-default E P publisher = refl

abbrev pub run_events : List String
run_events =
    "workflow.runtime.started" ∷ node_events pre_approval_runtime_stages
    ++ "workflow.runtime.waiting_for_approval" ∷ []

else_of : {A : Type 0} (b : Bool) (x y : A) → b ≡ false → (if b then x else y) ≡ y
else_of b x y h = rw h refl

module _ (P : Platform) (law : ReadsBack P) (publisher : Publisher) (actor : Actor) (E : Engine)
    (engine : ReadsRuntime E) (order : StreamsInOrder E) where
  feed :
      (r : RuntimeWorkflowState)
      → is_valid_runtime r ≡ true
      → Feeds E ((deterministic_service E).graph (E.dump_runtime r)) 0 pre_approval_runtime_stages r
  feed r valid =
      linear-Feeds E engine ((deterministic_service E).graph (E.dump_runtime r)) 0
        pre_approval_runtime_stages r (E.dump_runtime r) valid (engine.reads r valid)
        (λ k.
          let here : 0 + k ≡ k = omega arith in
          ap ((deterministic_service E).graph (E.dump_runtime r)) here
          ∙ order.in_order pre_approval_runtime_stages
              (λ s. wrap_runtime_node_handler E (deterministic_node_handler s))
              (pre_approval_edges E) (E.dump_runtime r) k refl)

  step_start :
      (i : Uuid) (c : WorkflowState) (r : RuntimeWorkflowState) (s : Session)
      → c.status ≡ created
      → r.workflow_id ≡ P.uuid_str i
      → is_valid_runtime r ≡ true
      → Ready P i created s
      → Step P i
          (start_run E P publisher i actor (deterministic_service E) c (some r))
          s
          waiting_approval
          (node_events pre_approval_runtime_stages ++ "workflow.runtime.waiting_for_approval" ∷ [])
          (λ v.
            v
            ≡ waiting_result
                (record (nodes pre_approval_runtime_stages r) { status = waiting_approval }))
  unfolding start_run settle_run can_transition
  step_start i c r s new named valid ready =
      Step-bind P i s waiting_approval waiting_approval (node_events pre_approval_runtime_stages)
        ("workflow.runtime.waiting_for_approval" ∷ []) _ _ _ _
        (step_stages P law publisher actor i E engine deterministic_node_handlers
          pre_approval_runtime_stages _ _ pre_approval_runtime_stages created 0 r _ s ready
          (refl, (refl, (refl, (refl, (refl, (refl, tt))))))
          (record {
            place = refl;
            status = new;
            entered = r.status;
            reads = engine.reads r valid;
            valid = valid;
          })
          (feed r valid))
        λ o reached t ready1.
          let (k, went) = reached in
          let (p, arrived, at) = went in
          subst
            (λ o'.
              Step P i (settle_run E P publisher i actor o') t waiting_approval
                ("workflow.runtime.waiting_for_approval" ∷ [])
                (λ v.
                  v
                  ≡ waiting_result
                      (record (nodes pre_approval_runtime_stages r) { status = waiting_approval })))
            (sym arrived)
            (step_finish P law publisher actor i E engine waiting_approval k
              (nodes pre_approval_runtime_stages r) p t _ _ _
              (id-nodes pre_approval_runtime_stages r ∙ named) ready1 at)

  step_accept :
      (i : Uuid) (c : WorkflowState) (r : RuntimeWorkflowState) (s : Session)
      → c.status ≡ created
      → workflow_state_to_runtime_state P.lower c ≡ ok r
      → c.workflow_id ≡ P.uuid_str i
      → is_valid_runtime r ≡ true
      → Ready P i created s
      → Step P i
          (accept_run E P publisher i actor (deterministic_service E) c)
          s
          waiting_approval
          run_events
          (λ v.
            v
            ≡ waiting_result
                (record (nodes pre_approval_runtime_stages r) { status = waiting_approval }))
  unfolding accept_run
  step_accept i c r s new converted named valid ready =
      Step-bind P i s created waiting_approval ("workflow.runtime.started" ∷ [])
        (node_events pre_approval_runtime_stages ++ "workflow.runtime.waiting_for_approval" ∷ []) _
        _ _ _ (Step-runtime_event P law publisher actor i s created ready _ _ _ _)
        λ u eu t ready1.
          rw (converted, bind-lift)
            (step_start i c r t new (converted-id P.lower c r converted ∙ named) valid ready1)

  run_found-created :
      (i : Uuid) (c : WorkflowState) (s : Session)
      → c.status ≡ created
      → run_found E P publisher i actor (deterministic_service E) c s
        ≡ accept_run E P publisher i actor (deterministic_service E) c s
  unfolding run_found
  run_found-created i c s new =
      ap (λ (m : Action RuntimeWorkflowResult). m s)
        (else_of (not (same_status c.status created)) _ _
          (ap (λ st. not (same_status st created)) new))

  -- A run with the default handlers and no language model or grounding carries a stored workflow in
  -- CREATED, whose state converts to a valid runtime state, to the wait for approval. It returns the
  -- state after the six nodes, the row is in WAITING_APPROVAL, and the events added are, by their
  -- types, the start, the start and the completion of each stage in order, and the wait. Asked for are that
  -- dumps read back and that the graph streams its nodes in order.
  pub run_workflow-waits :
      (w : Workflow) (state : WorkflowState) (r : RuntimeWorkflowState) (s : Session)
      → find_workflow w.id s.workflows ≡ some w
      → IsStored P w state
      → w.status ≡ created
      → workflow_state_to_runtime_state P.lower (with_columns P w state) ≡ ok r
      → is_valid_runtime r ≡ true
      → let (answer, t) = run_workflow E P publisher w.id actor (deterministic_service E) s in
        (answer
          ≡ ok (
              waiting_result
                (record (nodes pre_approval_runtime_stages r) { status = waiting_approval })))
        × ((v : Workflow) × (find_workflow w.id t.workflows ≡ some v)
            × (v.status ≡ waiting_approval))
        × (types t.events ≡ types s.events ++ run_events)
  run_workflow-waits w state r s here stored new converted valid =
      let ran = step_accept w.id (with_columns P w state) r s new converted refl valid (record {
        row = w;
        state = state;
        same_id = refl;
        here = here;
        in_status = new;
        stored = stored;
      }) in
      let runs : run_workflow E P publisher w.id actor (deterministic_service E) s
          ≡ (ok ran.value, ran.after) =
        run_workflow-found P publisher E law (deterministic_service E) w state actor s here stored
        ∙ run_found-created w.id (with_columns P w state) s new
        ∙ ran.runs in
      (
        ap (λ x. x.0) runs ∙ ap ok ran.good,
        (
          ran.ready.row,
          ap (λ x. find_workflow w.id x.1.workflows) runs ∙ ran.ready.here,
          ran.ready.in_status,
        ),
        ap (λ x. types x.1.events) runs ∙ ran.grown,
      )
