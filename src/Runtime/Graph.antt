-- ===== src/Runtime/Graph.antt =====
-- backend/app/runtime/graph.py: the linear graph of the stages. START and END are LangGraph's, and
-- so is the stream that a compiled graph gives: both are fields of an `Engine`.
use graduation_project.Prelude.{
  ℕ, String, Bool, true, ◌&&◌, Option, none, some, List, [], ◌∷◌, all, map, if◌then◌else◌,
}
use graduation_project.Json.{Json, Dict}
use graduation_project.Stage.{RuntimeStage, stage_value, runtime_stages, same_stage}
use graduation_project.Store.{Error, Result, ok, err, raised, validation_failed}
use graduation_project.Runtime.{RuntimeWorkflowState, has_stage}
use graduation_project.Runtime.Nodes.{NodeHandler}
use graduation_project.Runtime.Rag.{RagGroundingResult}

-- A node as `add_node` takes it, over the payloads of the graph.
abbrev pub GraphNode : Type 0
GraphNode = String × (Dict → Result Dict)

abbrev pub GraphEdge : Type 0
GraphEdge = String × String

-- What the runtime takes from LangGraph and pydantic: the names of the two ends, the n-th item of
-- the iterator over a compiled graph's stream, `model_dump` of `RuntimeWorkflowState`, and
-- `model_validate` of it and of the grounding result, which answers `none` where it raises.
pub record Engine : Type 0 where
  pub start_node : String
  pub end_node : String
  pub stream : List GraphNode → List GraphEdge → Dict → ℕ → Result Json
  pub dump_runtime : RuntimeWorkflowState → Dict
  pub validate_runtime : Dict → Option RuntimeWorkflowState
  pub validate_grounding : Dict → Option RagGroundingResult

-- A mapping from stages to handlers.
abbrev pub NodeHandlers : Type 0
NodeHandlers = List (RuntimeStage × NodeHandler)

abbrev pub stages_given : Option (List RuntimeStage) → List RuntimeStage
stages_given none = runtime_stages
stages_given (some stages) = stages

-- `zip(stages, stages[1:])`, and the edge to the end.
abbrev pub edges_from : Engine → RuntimeStage → List RuntimeStage → List GraphEdge
edges_from E stage [] = (stage_value stage, E.end_node) ∷ []
edges_from E stage (next ∷ stages) =
    (stage_value stage, stage_value next) ∷ edges_from E next stages

abbrev pub edges_of : Engine → List RuntimeStage → Result (List GraphEdge)
edges_of E [] = err (raised "ValueError")
edges_of E (stage ∷ stages) = ok ((E.start_node, stage_value stage) ∷ edges_from E stage stages)

unfoldable pub runtime_graph_topology :
    Engine → Option (List RuntimeStage) → Result (List GraphEdge)
runtime_graph_topology E stages = edges_of E (stages_given stages)

abbrev pub handled_stages : NodeHandlers → List RuntimeStage
handled_stages handlers = map (λ h. h.0) handlers

-- `set(a) <= set(b)`
abbrev pub covers : List RuntimeStage → List RuntimeStage → Bool
covers wanted given = all (λ stage. has_stage stage given) wanted

abbrev pub no_extra : Option (List RuntimeStage) → NodeHandlers → Bool
no_extra none handlers = covers (handled_stages handlers) runtime_stages
no_extra (some stages) handlers = true

-- `none` is the silent return.
unfoldable pub validate_runtime_node_handlers :
    NodeHandlers → Option (List RuntimeStage) → Option Error
validate_runtime_node_handlers handlers stages =
    if covers (stages_given stages) (handled_stages handlers) && no_extra stages handlers
    then none
    else some (raised "ValueError")

-- `node_handlers[stage]`
abbrev pub handler_of : RuntimeStage → NodeHandlers → Option NodeHandler
handler_of stage [] = none
handler_of stage ((t, h) ∷ handlers) =
    if same_stage t stage then some h else handler_of stage handlers

module _ (E : Engine) where
  abbrev dumped : Result RuntimeWorkflowState → Result Dict
  dumped (ok state) = ok (E.dump_runtime state)
  dumped (err e) = err e

  abbrev handled : NodeHandler → Option RuntimeWorkflowState → Result Dict
  handled handler none = err validation_failed
  handled handler (some state) = dumped (handler state)

  -- `_wrap_runtime_node_handler`
  unfoldable pub wrap_runtime_node_handler : NodeHandler → Dict → Result Dict
  wrap_runtime_node_handler handler payload = handled handler (E.validate_runtime payload)

  abbrev add_node :
      RuntimeStage → Option NodeHandler → Result (List GraphNode) → Result (List GraphNode)
  add_node stage (some handler) (ok nodes) =
      ok ((stage_value stage, wrap_runtime_node_handler handler) ∷ nodes)
  add_node stage (some handler) (err e) = err e
  add_node stage none rest = err (raised "KeyError")

  unfoldable pub graph_nodes : NodeHandlers → List RuntimeStage → Result (List GraphNode)
  graph_nodes handlers [] = ok []
  graph_nodes handlers (stage ∷ stages) =
      add_node stage (handler_of stage handlers) (graph_nodes handlers stages)

  abbrev compiled :
      Result (List GraphNode) → Result (List GraphEdge) → Result (Dict → ℕ → Result Json)
  compiled (ok nodes) (ok edges) = ok (E.stream nodes edges)
  compiled (ok nodes) (err e) = err e
  compiled (err e) _ = err e

  abbrev checked : Option Error → Result (Dict → ℕ → Result Json) → Result (Dict → ℕ → Result Json)
  checked none graph = graph
  checked (some e) graph = err e

  -- `build_workflow_graph`: the stream of the compiled graph, as a function of the first payload.
  unfoldable pub build_workflow_graph :
      NodeHandlers → Option (List RuntimeStage) → Result (Dict → ℕ → Result Json)
  unfolding validate_runtime_node_handlers graph_nodes runtime_graph_topology
  build_workflow_graph handlers stages =
      checked (validate_runtime_node_handlers handlers (some (stages_given stages))) (
        compiled (graph_nodes handlers (stages_given stages))
          (runtime_graph_topology E (some (stages_given stages))))
