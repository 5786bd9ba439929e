-- ===== src/Runtime/Loop.antt =====
-- The loop of `RuntimeService.run_workflow` with the deterministic handlers, and what is asked of
-- pydantic and LangGraph (backend/app/runtime: service.py, graph.py, nodes.py).
use Prim.Native.String
use graduation_project.Prelude.{
  ℕ, zero, suc, ◌+◌, ◌≡◌, refl, ap, ◌∙◌, String, Bool, true, false, ◌&&◌, none, some, List, [], ◌∷◌,
  map, arith, leb,
}
use graduation_project.Json.{Json, Dict, object, empty, entry, update}
use graduation_project.Lifecycle.{WorkflowStatus, can_transition}
use graduation_project.Stage.{RuntimeStage, stage_value}
use graduation_project.Schema.{bounded_text, bounded_error}
use graduation_project.Store.{Result, ok, err, raised, and_then}
use graduation_project.Runtime.{RuntimeWorkflowState, runtime_stage_status}
use graduation_project.Runtime.Nodes.{complete_stage, extra_output_of, deterministic_node_handler}
use graduation_project.Runtime.Graph.{
  Engine, GraphNode, NodeHandlers, edges_of, wrap_runtime_node_handler,
}
use graduation_project.Runtime.Outputs.{has_distinct_stages, put-has_distinct_stages}
use graduation_project.Runtime.Stages.{RuntimeService}

-- The constraints that the schema's fields put on a runtime state.
abbrev pub is_valid_runtime : RuntimeWorkflowState → Bool
is_valid_runtime r =
    leb 1 (String.count r.workflow_id)
    && (bounded_text 1 100 r.domain
        && (bounded_error r.error && has_distinct_stages r.stage_outputs))

-- What pydantic's documentation promises: a valid state's dump is validated to that state, on its
-- own and written over a dictionary, whose other keys are ignored.
pub record ReadsRuntime (E : Engine) : Type 0 where
  pub reads :
      (r : RuntimeWorkflowState)
      → is_valid_runtime r ≡ true
      → E.validate_runtime (E.dump_runtime r) ≡ some r
  pub reads_over :
      (d : Dict) (r : RuntimeWorkflowState)
      → is_valid_runtime r ≡ true
      → E.validate_runtime (update d (E.dump_runtime r)) ≡ some r

-- What LangGraph's documentation says of a graph of nodes in a line, streamed by updates: one item
-- for each node in order, its output under its name, and each node runs on the state updated with
-- the outputs before.
abbrev pub linear_stream : List GraphNode → Dict → ℕ → Result Json
linear_stream [] payload n = err (raised "StopIteration")
linear_stream ((name, run) ∷ nodes) payload zero =
    and_then (run payload) λ out. ok (object (entry name (object out) empty))
linear_stream ((name, run) ∷ nodes) payload (suc n) =
    and_then (run payload) λ out. linear_stream nodes (update payload out) n

pub record StreamsInOrder (E : Engine) : Type 0 where
  pub in_order :
      (stages : List RuntimeStage) (run : RuntimeStage → Dict → Result Dict)
      (edges : List (String × String)) (payload : Dict) (n : ℕ)
      → edges_of E stages ≡ ok edges
      → E.stream (map (λ s. (stage_value s, run s)) stages) edges payload n
        ≡ linear_stream (map (λ s. (stage_value s, run s)) stages) payload n

-- The state after a deterministic node, and after several.
abbrev pub node : RuntimeStage → RuntimeWorkflowState → RuntimeWorkflowState
node stage r = complete_stage r stage (extra_output_of stage)

abbrev pub nodes : List RuntimeStage → RuntimeWorkflowState → RuntimeWorkflowState
nodes [] r = r
nodes (stage ∷ stages) r = nodes stages (node stage r)

pub node-is_valid :
    (s : RuntimeStage) (r : RuntimeWorkflowState)
    → is_valid_runtime r ≡ true
    → is_valid_runtime (node s r) ≡ true
unfolding complete_stage
node-is_valid s r h =
    with_outputs (leb 1 (String.count r.workflow_id)) (bounded_text 1 100 r.domain)
      (bounded_error r.error) (has_distinct_stages r.stage_outputs) _ h
      (put-has_distinct_stages s _ r.stage_outputs)
  where
    with_outputs :
        (a b c d e : Bool)
        → a && (b && (c && d)) ≡ true
        → (d ≡ true → e ≡ true)
        → a && (b && (c && e)) ≡ true
    with_outputs a b c d e h f = ground arith

-- A service without language model and grounding.
abbrev pub plain_service :
    NodeHandlers → List RuntimeStage → (Dict → ℕ → Result Json) → RuntimeService
plain_service handlers stages graph = record {
  node_handlers = handlers;
  stages = stages;
  llm_runtime_enabled = false;
  llm_adapter = none;
  rag_adapter = none;
  graph = graph;
}

-- The nodes that `build_workflow_graph` adds for the deterministic handlers.
abbrev pub deterministic_nodes : Engine → List RuntimeStage → List GraphNode
deterministic_nodes E =
    map (λ s. (stage_value s, wrap_runtime_node_handler E (deterministic_node_handler s)))

-- The items that the loop draws from the stream, from a place on.
abbrev pub Feeds :
    Engine → (ℕ → Result Json) → ℕ → List RuntimeStage → RuntimeWorkflowState → Type 0
Feeds E stream n [] r = Unit
Feeds E stream n (s ∷ ss) r =
    (stream n ≡ ok (object (entry (stage_value s) (object (E.dump_runtime (node s r))) empty)))
    × Feeds E stream (n + 1) ss (node s r)

-- Each stage's status may follow the one before.
abbrev pub Route : WorkflowStatus → List RuntimeStage → Type 0
Route st [] = Unit
Route st (s ∷ ss) =
    (can_transition st (runtime_stage_status s) ≡ true) × Route (runtime_stage_status s) ss

abbrev pub last_of : WorkflowStatus → List RuntimeStage → WorkflowStatus
last_of st [] = st
last_of st (s ∷ ss) = last_of (runtime_stage_status s) ss

-- The types of the events of the loop.
abbrev pub node_events : List RuntimeStage → List String
node_events [] = []
node_events (s ∷ ss) = "workflow.node.started" ∷ "workflow.node.completed" ∷ node_events ss

-- The stream of the deterministic nodes feeds the loop with each node's state.
pub linear-Feeds :
    (E : Engine) (law : ReadsRuntime E) (stream : ℕ → Result Json) (n : ℕ)
    (stages : List RuntimeStage) (r : RuntimeWorkflowState) (payload : Dict)
    → is_valid_runtime r ≡ true
    → E.validate_runtime payload ≡ some r
    → ((k : ℕ) → stream (n + k) ≡ linear_stream (deterministic_nodes E stages) payload k)
    → Feeds E stream n stages r
unfolding wrap_runtime_node_handler
linear-Feeds E law stream n [] r payload valid here same = tt
linear-Feeds E law stream n (s ∷ ss) r payload valid here same = (
  ap stream (omega arith) ∙ same 0 ∙ (rw here refl),
  linear-Feeds E law stream (n + 1) ss (node s r) (update payload (E.dump_runtime (node s r)))
      (node-is_valid s r valid) (law.reads_over payload (node s r) (node-is_valid s r valid))
      (λ k. ap stream (omega arith) ∙ same (suc k) ∙ (rw here refl)),
)
