-- ===== src/Runtime/Stages.antt =====
-- backend/app/runtime/service.py: how `RuntimeService` carries out one stage. A payload is the
-- dictionary that the state dumps to. What a `try` block has assigned when something is raised is
-- kept in a `Progress`, and `Outcome` tells whether the block was left by an exception.
use Prim.Native.String
use graduation_project.Prelude.{
  ℕ, ◌+◌, String, Bool, true, false, not, Option, none, some, List, [], ◌∷◌, ◌==◌, if◌then◌else◌,
}
use graduation_project.Json.{Json, Dict, number, text, object, empty, entry, get, update}
use graduation_project.Lifecycle.{WorkflowStatus}
use graduation_project.Stage.{RuntimeStage, email_preparation, stage_value, same_stage}
use graduation_project.Schema.{Uuid, WorkflowState, started, completed, failed}
use graduation_project.Store.{
  Platform, Error, Result, ok, err, Action, validation_failed, raised, and_then, attempt, lift,
  pure, ◌>>=◌, ◌>>◌,
}
use graduation_project.Workflows.Service.{Actor, transition_workflow_status}
use graduation_project.Workflows.Events.{Publisher}
use graduation_project.Runtime.{RuntimeWorkflowState, output_of, runtime_stage_status}
use graduation_project.Runtime.Nodes.{NodeHandler}
use graduation_project.Runtime.Graph.{Engine, NodeHandlers, handler_of}
use graduation_project.Runtime.Rag.{
  RagAdapter, RagGroundingResult, supports_stage, retrieve_stage_grounding, apply_grounding,
  failure_context, event_payload, dict_output,
}
use graduation_project.Runtime.Report.{
  error_type, safe_rag_error_payload, llm_stage_event_payload, append_runtime_event,
  append_node_event,
}

-- What a `RuntimeService` is built with; `graph` is the stream of its compiled graph.
pub record RuntimeService : Type 0 where
  pub node_handlers : NodeHandlers
  pub stages : List RuntimeStage
  pub llm_runtime_enabled : Bool
  pub llm_adapter : Option (RuntimeWorkflowState → RuntimeStage → Result RuntimeWorkflowState)
  pub rag_adapter : Option RagAdapter
  pub graph : Dict → ℕ → Result Json

pub record Progress : Type 0 where
  pub current : WorkflowState
  pub payload : Dict
  pub position : ℕ

pub data Outcome : Type 0 where
  going : Progress → Outcome
  broke : RuntimeStage → Progress → Error → Outcome

abbrev pub about_stage : String → RuntimeStage → String → String
about_stage before stage after = String.◌++◌ before (String.◌++◌ (stage_value stage) after)

-- One call inside a `try` block, and the rest of the block.
module _ {A : Type 0} where
  abbrev pub outcome : RuntimeStage → Progress → Result A → (A → Action Outcome) → Action Outcome
  outcome stage p (ok a) f = f a
  outcome stage p (err e) f = pure (broke stage p e)

  unfoldable pub guarded :
      RuntimeStage → Progress → Action A → (A → Action Outcome) → Action Outcome
  guarded stage p m f = do r ← attempt m; outcome stage p r f

module _ (E : Engine) where
  -- `RuntimeWorkflowState.model_validate(payload)`
  abbrev pub or_invalid : {A : Type 0} → Option A → Result A
  or_invalid none = err validation_failed
  or_invalid (some a) = ok a

  unfoldable pub parsed : Dict → Result RuntimeWorkflowState
  parsed payload = or_invalid (E.validate_runtime payload)

  -- `_payload_with_status`
  unfoldable pub payload_with_status : Dict → WorkflowStatus → Result Dict
  unfolding parsed
  payload_with_status payload status =
      and_then (parsed payload) λ state. ok (E.dump_runtime (record state { status = status }))

  abbrev from_chunk : Dict → Option Json → Dict
  from_chunk chunk (some (object d)) = d
  from_chunk chunk _ = chunk

  abbrev chunk_payload : RuntimeStage → Json → Result Dict
  chunk_payload stage (object chunk) = ok (from_chunk chunk (get (stage_value stage) chunk))
  chunk_payload stage _ = err (raised "TypeError")

  -- `_next_stage_payload`, at the place that the iterator has come to.
  unfoldable pub next_stage_payload : (ℕ → Result Json) → ℕ → RuntimeStage → Result Dict
  next_stage_payload stream n stage = and_then (stream n) λ chunk. chunk_payload stage chunk

  abbrev required_handler : Option NodeHandler → Result NodeHandler
  required_handler none = err (raised "KeyError")
  required_handler (some h) = ok h

  abbrev grounds : Option RagAdapter → RuntimeStage → Bool
  grounds none stage = false
  grounds (some A) stage = supports_stage stage

  module _ (R : RuntimeService) where
    -- The call of `self.node_handlers[stage]` past the graph.
    unfoldable pub handle_directly : Dict → ℕ → RuntimeStage → Result (Dict × ℕ)
    unfolding parsed
    handle_directly payload n stage = and_then (parsed payload) λ state.
        and_then (required_handler (handler_of stage R.node_handlers))
          λ handler. and_then (handler state) λ next. ok (E.dump_runtime next, n)

    -- The stage's payload without the language model, and the place of the iterator afterwards.
    unfoldable pub execute_without_llm :
        (ℕ → Result Json) → ℕ → Dict → RuntimeStage → Result (Dict × ℕ)
    unfolding handle_directly next_stage_payload supports_stage
    execute_without_llm stream n payload stage =
        if grounds R.rag_adapter stage
        then handle_directly payload n stage
        else and_then (next_stage_payload stream n stage) λ next. ok (next, n + 1)

    abbrev executed :
        Option (RuntimeWorkflowState → RuntimeStage → Result RuntimeWorkflowState)
        → (ℕ → Result Json)
        → ℕ
        → Dict
        → RuntimeStage
        → Result (Dict × ℕ)
    executed none stream n payload stage = execute_without_llm stream n payload stage
    executed (some run_stage) stream n payload stage =
        if same_stage stage email_preparation
        then execute_without_llm stream n payload stage
        else and_then (parsed payload)
            λ state. and_then (run_stage state stage) λ next. ok (E.dump_runtime next, n)

    -- `_execute_stage`
    unfoldable pub execute_stage : (ℕ → Result Json) → ℕ → Dict → RuntimeStage → Result (Dict × ℕ)
    unfolding execute_without_llm parsed
    execute_stage stream n payload stage = executed R.llm_adapter stream n payload stage

    abbrev was_failed : Option Json → Bool
    was_failed (some (text s)) = s == "failed"
    was_failed _ = false

    abbrev grounded_output : Dict → Option Json → Result Dict
    grounded_output payload (some (object raw)) =
        if was_failed (get "status" raw)
        then ok payload
        else and_then (parsed payload) λ state.
          and_then (or_invalid (E.validate_grounding raw))
            λ result. ok (E.dump_runtime (apply_grounding state result true))
    grounded_output payload _ = ok payload

    -- `_apply_existing_grounding_to_stage_output`
    unfoldable pub apply_existing_grounding : Dict → RuntimeStage → Result Dict
    unfolding parsed supports_stage apply_grounding
    apply_existing_grounding payload stage =
        if not (grounds R.rag_adapter stage)
        then ok payload
        else and_then (parsed payload) λ state. grounded_output payload (
            get (stage_value stage)
              (dict_output (get "stages" (dict_output (get "rag" state.runtime_context)))))

    module _ (P : Platform) (publisher : Publisher) (i : Uuid) (actor : Actor) where
      -- The end of `_ground_stage_if_enabled`, on what the retrieval returned or raised.
      unfoldable pub record_grounding :
          RagAdapter → RuntimeWorkflowState → RuntimeStage → Result RagGroundingResult → Action Dict
      record_grounding A state stage (ok result) = do
        append_runtime_event P publisher i actor "knowledge.grounding.completed" completed
            (about_stage "Knowledge grounding for " stage " completed.") (event_payload A result)
        pure (E.dump_runtime (apply_grounding state result false))
      record_grounding A state stage (err e) = do
        append_runtime_event P publisher i actor "knowledge.grounding.failed" failed
            (about_stage "Knowledge grounding for " stage " failed.")
            (update
              (entry "stage" (text (stage_value stage)) (entry "top_k" (number A.top_k) empty))
              (safe_rag_error_payload e))
        pure (E.dump_runtime (failure_context state stage (error_type e)))

      unfoldable pub ground_stage : RagAdapter → Dict → RuntimeStage → Action Dict
      ground_stage A payload stage = do
        append_runtime_event P publisher i actor "knowledge.grounding.started" started
            (about_stage "Knowledge grounding for " stage " started.")
            (entry "stage" (text (stage_value stage)) (entry "top_k" (number A.top_k) empty))
        state ← lift (parsed payload)
        record_grounding A state stage (retrieve_stage_grounding A state stage)

      abbrev pub grounded_by : Option RagAdapter → Dict → RuntimeStage → Action Dict
      grounded_by none payload stage = pure payload
      grounded_by (some A) payload stage =
          if not (supports_stage stage) then pure payload else ground_stage A payload stage

      -- `_ground_stage_if_enabled`
      unfoldable pub ground_stage_if_enabled : Dict → RuntimeStage → Action Dict
      ground_stage_if_enabled payload stage = grounded_by R.rag_adapter payload stage

      -- The body of the loop of `run_workflow`.
      unfoldable pub run_stage : (ℕ → Result Json) → RuntimeStage → Progress → Action Outcome
      run_stage stream stage p0 =
          let status = runtime_stage_status stage in
          guarded stage p0
            (transition_workflow_status P i status actor
              (some (about_stage "Runtime entered " stage " stage.")))
            λ current.
              let p1 = record p0 { current = current } in
              guarded stage p1 (lift (payload_with_status p1.payload status)) λ entered.
                let p2 = record p1 { payload = entered } in
                guarded stage p2
                  (append_node_event P publisher i actor stage "workflow.node.started" started
                    status (about_stage "Runtime stage " stage " started.") none
                    (llm_stage_event_payload R.llm_runtime_enabled stage))
                  λ u. guarded stage p2 (ground_stage_if_enabled p2.payload stage) λ grounded.
                    let p3 = record p2 { payload = grounded } in
                    guarded stage p3 (lift (execute_stage stream p3.position p3.payload stage))
                      λ next.
                        let p4 = record p3 { payload = next.0; position = next.1 } in
                        guarded stage p4 (lift (apply_existing_grounding p4.payload stage)) λ cited.
                          let p5 = record p4 { payload = cited } in
                          guarded stage p5 (lift (payload_with_status p5.payload status)) λ left.
                            let p6 = record p5 { payload = left } in
                            guarded stage p6 (lift (parsed p6.payload)) λ state.
                              guarded stage p6
                                (append_node_event P publisher i actor stage
                                  "workflow.node.completed" completed status
                                  (about_stage "Runtime stage " stage " completed.")
                                  (output_of stage state.stage_outputs)
                                  (llm_stage_event_payload R.llm_runtime_enabled stage))
                                λ v. pure (going p6)

      abbrev pub next_stages : Outcome → (Progress → Action Outcome) → Action Outcome
      next_stages (going p) f = f p
      next_stages (broke stage p e) f = pure (broke stage p e)

      -- `for stage in self.stages`
      unfoldable pub run_stages : (ℕ → Result Json) → List RuntimeStage → Progress → Action Outcome
      run_stages stream [] p = pure (going p)
      run_stages stream (stage ∷ stages) p = do
        o ← run_stage stream stage p
        next_stages o λ q. run_stages stream stages q

      -- The `try` block of `resume_workflow_after_approval`.
      unfoldable pub run_resumed_stage :
          (ℕ → Result Json) → RuntimeStage → WorkflowStatus → Progress → Action Outcome
      run_resumed_stage stream stage status p0 =
          guarded stage p0
            (append_node_event P publisher i actor stage "workflow.node.started" started status
              (about_stage "Runtime stage " stage " started.") none
              (llm_stage_event_payload R.llm_runtime_enabled stage))
            λ u. guarded stage p0 (lift (execute_stage stream p0.position p0.payload stage)) λ next.
              let p1 = record p0 { payload = next.0; position = next.1 } in
              guarded stage p1 (lift (payload_with_status p1.payload status)) λ left.
                let p2 = record p1 { payload = left } in
                guarded stage p2 (lift (parsed p2.payload)) λ state.
                  guarded stage p2
                    (append_node_event P publisher i actor stage "workflow.node.completed" completed
                      status (about_stage "Runtime stage " stage " completed.")
                      (output_of stage state.stage_outputs)
                      (llm_stage_event_payload R.llm_runtime_enabled stage))
                    λ v. pure (going p2)
