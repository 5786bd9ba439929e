-- ===== src/Runtime/Sample.antt =====
-- An engine with concrete functions, at which the theorems of the runtime are applied: a state is
-- dumped with a key per field under one key, and the stream runs the nodes in order.
use graduation_project.Prelude.{◌≡◌, refl, ap, ◌∙◌, Option, none, some, List, [], ◌∷◌}
use mathlib.Core.Path.{ap₂}
use graduation_project.Json.{
  Json, Items, Dict, null, number, text, array, object, nil, cons, empty, entry, get, update,
}
use graduation_project.Json.Laws.{get-put_self}
use graduation_project.Lifecycle.{created, status_value}
use graduation_project.Stage.{RuntimeStage, planner, stage_value, runtime_stages}
use graduation_project.Schema.{WorkflowState, Workflow, WorkflowType, procurement_quotation}
use graduation_project.Store.{Session}
use graduation_project.Workflows.Audit.{optional_text}
use graduation_project.Workflows.Contract.{blank_state, IsStored}
use graduation_project.Workflows.Sample.{sample, waiting_row, waiting_session}
use graduation_project.Workflows.Sample.Fields.{
  tally, dump_error, error-back, error_at, dict_at, items_at, number_at, optional_text-back,
  optional_text_at, status-back, status_at, text_at,
}
use graduation_project.Runtime.{RuntimeWorkflowState, StageOutputs}
use graduation_project.Runtime.Adapter.{stage_named}
use graduation_project.Runtime.Graph.{Engine}
use graduation_project.Runtime.Loop.{ReadsRuntime, StreamsInOrder, linear_stream}

abbrev dump_stages : List RuntimeStage → Items
dump_stages [] = nil
dump_stages (s ∷ ss) = cons (text (stage_value s)) (dump_stages ss)

abbrev or_planner : Option RuntimeStage → RuntimeStage
or_planner none = planner
or_planner (some s) = s

abbrev stage_at : Json → RuntimeStage
stage_at (text s) = or_planner (stage_named s runtime_stages)
stage_at _ = planner

abbrev stages_at : Items → List RuntimeStage
stages_at nil = []
stages_at (cons v vs) = stage_at v ∷ stages_at vs

abbrev dump_stage : Option RuntimeStage → Json
dump_stage none = null
dump_stage (some s) = text (stage_value s)

abbrev optional_stage_at : Option Json → Option RuntimeStage
optional_stage_at (some (text s)) = stage_named s runtime_stages
optional_stage_at _ = none

abbrev dump_outputs : StageOutputs → Dict
dump_outputs [] = empty
dump_outputs ((s, d) ∷ outs) = entry (stage_value s) (object d) (dump_outputs outs)

abbrev outputs_at : Dict → StageOutputs
outputs_at empty = []
outputs_at (entry k v d) = (stage_at (text k), dict_at empty (some v)) ∷ outputs_at d

stage-back : (s : RuntimeStage) → stage_at (text (stage_value s)) ≡ s
stage-back planner = refl
stage-back s = refl

named-back : (s : RuntimeStage) → stage_named (stage_value s) runtime_stages ≡ some s
named-back planner = refl
named-back s = refl

optional-back : (o : Option RuntimeStage) → optional_stage_at (some (dump_stage o)) ≡ o
optional-back none = refl
optional-back (some s) = named-back s

stages-back : (ss : List RuntimeStage) → stages_at (dump_stages ss) ≡ ss
stages-back [] = refl
stages-back (s ∷ ss) = ap₂ (λ x xs. x ∷ xs) (stage-back s) (stages-back ss)

outputs-back : (outs : StageOutputs) → outputs_at (dump_outputs outs) ≡ outs
outputs-back [] = refl
outputs-back ((s, d) ∷ outs) =
    ap₂ (λ x xs. x ∷ xs) (ap (λ t. (t, d)) (stage-back s)) (outputs-back outs)

unfoldable pub dump_runtime : RuntimeWorkflowState → Dict
dump_runtime r =
    entry "state"
      (object (
        entry "workflow_id" (text r.workflow_id) (
          entry "domain" (optional_text r.domain) (
            entry "status" (text (status_value r.status)) (
              entry "request" (object r.request) (
                entry "metadata" (object r.metadata) (
                  entry "customer" (object r.customer) (
                    entry "items" (array r.items) (
                      entry "current_stage" (dump_stage r.current_stage) (
                        entry "completed_stages" (array (dump_stages r.completed_stages)) (
                          entry "failed_stage" (dump_stage r.failed_stage) (
                            entry "runtime_context" (object r.runtime_context) (
                              entry "stage_outputs" (object (dump_outputs r.stage_outputs)) (
                                entry "outputs" (object r.outputs) (
                                  entry "steps" (array r.steps) (
                                    entry "error" (dump_error r.error) (
                                      entry "retry_count" (number r.retry_count)
                                        (entry "events" (array r.events) empty))))))))))))))))))
      empty

abbrev read_runtime : Dict → RuntimeWorkflowState
read_runtime d = record {
  workflow_id = text_at (get "workflow_id" d);
  workflow_type = procurement_quotation;
  domain = optional_text_at (get "domain" d);
  status = status_at (get "status" d);
  request = dict_at empty (get "request" d);
  metadata = dict_at empty (get "metadata" d);
  customer = dict_at empty (get "customer" d);
  items = items_at (get "items" d);
  current_stage = optional_stage_at (get "current_stage" d);
  completed_stages = stages_at (items_at (get "completed_stages" d));
  failed_stage = optional_stage_at (get "failed_stage" d);
  runtime_context = dict_at empty (get "runtime_context" d);
  stage_outputs = outputs_at (dict_at empty (get "stage_outputs" d));
  outputs = dict_at empty (get "outputs" d);
  steps = items_at (get "steps" d);
  error = error_at (get "error" d);
  retry_count = number_at (get "retry_count" d);
  events = items_at (get "events" d);
}

unfoldable pub validate_runtime : Dict → Option RuntimeWorkflowState
validate_runtime d = some (read_runtime (dict_at empty (get "state" d)))

abbrev pub sample_engine : Engine
sample_engine = record {
  start_node = "__start__";
  end_node = "__end__";
  stream = λ nodes edges payload n. linear_stream nodes payload n;
  dump_runtime = dump_runtime;
  validate_runtime = validate_runtime;
  validate_grounding = λ d. none;
}

type-only : (t : WorkflowType) → procurement_quotation ≡ t
type-only procurement_quotation = refl

read-dumped :
    (d : Dict) (r : RuntimeWorkflowState) → validate_runtime (update d (dump_runtime r)) ≡ some r
unfolding validate_runtime dump_runtime
read-dumped d r =
    rw
      (
        get-put_self "state",
        optional_text-back r.domain,
        status-back r.status,
        optional-back r.current_stage,
        stages-back r.completed_stages,
        optional-back r.failed_stage,
        outputs-back r.stage_outputs,
        error-back r.error,
      )
      refl
    ∙ ap (λ t. some (record r { workflow_type = t })) (type-only r.workflow_type)

pub sample_engine-ReadsRuntime : ReadsRuntime sample_engine
unfolding dump_runtime
sample_engine-ReadsRuntime = record {
  reads = λ r valid. read-dumped empty r;
  reads_over = λ d r valid. read-dumped d r;
}

pub sample_engine-StreamsInOrder : StreamsInOrder sample_engine
sample_engine-StreamsInOrder = record { in_order = λ stages run edges payload n h. refl }

-- A session with one workflow, in CREATED.
abbrev pub created_state : WorkflowState
created_state = record blank_state { workflow_id = "#iiiiiii" }

abbrev pub created_row : Workflow
created_row = record waiting_row {
  status = created;
  state_payload = sample.dump_state created_state;
}

abbrev pub created_session : Session
created_session = record waiting_session { workflows = created_row ∷ [] }

pub created_row-IsStored : IsStored sample created_row created_state
unfolding tally
created_row-IsStored = record { dumped = refl; typed = refl; bounded = refl }
