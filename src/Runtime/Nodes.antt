-- ===== src/Runtime/Nodes.antt =====
-- backend/app/runtime/nodes.py: the node handlers that record a stage without a language model.
use graduation_project.Prelude.{
  String, Bool, true, false, not, Option, some, List, [], ◌∷◌, ◌++◌, if◌then◌else◌,
}
use graduation_project.Json.{
  Json, Items, Dict, bool, text, object, nil, cons, empty, entry, get, put, update, is_empty,
}
use graduation_project.Stage.{
  RuntimeStage, planner, retrieval, quotation, compliance, validation, approval, email_preparation,
  stage_value,
}
use graduation_project.Store.{Result, ok}
use graduation_project.Runtime.{RuntimeWorkflowState, put_output, has_stage}

-- `_STAGE_SUMMARIES`
abbrev stage_summary : RuntimeStage → String
stage_summary planner = "Deterministic planner placeholder recorded workflow planning stage."
stage_summary retrieval =
    "Deterministic retrieval placeholder recorded retrieval stage without external lookup."
stage_summary quotation =
    "Deterministic quotation placeholder recorded quotation stage without pricing calculation."
stage_summary compliance =
    "Deterministic compliance placeholder recorded compliance stage without policy evaluation."
stage_summary validation =
    "Deterministic validation placeholder recorded validation stage without business rule enforcement."
stage_summary approval =
    "Deterministic approval placeholder recorded approval wait stage without approval decision."
stage_summary email_preparation =
    "Deterministic email preparation placeholder recorded email stage without sending email."

-- `bool(items)`
abbrev has_items : Items → Bool
has_items nil = false
has_items (cons x xs) = true

-- `_stage_output`
unfoldable pub placeholder_output : RuntimeWorkflowState → RuntimeStage → Dict
placeholder_output state stage = entry "stage" (text (stage_value stage)) (
    entry "status" (text "completed") (
      entry "summary" (text (stage_summary stage)) (
        entry "placeholder" (bool true) (
          entry "request_present" (bool (not (is_empty state.request))) (
            entry "customer_present" (bool (not (is_empty state.customer)))
              (entry "items_present" (bool (has_items state.items)) empty))))))

-- The entries of a dictionary that are dictionaries themselves.
unfoldable pub objects_of : Dict → Dict
objects_of empty = empty
objects_of (entry k (object v) d) = entry k (object v) (objects_of d)
objects_of (entry k _ d) = objects_of d

-- `_output_stage_outputs`
abbrev pub read_stage_outputs : Option Json → Dict
read_stage_outputs (some (object d)) = objects_of d
read_stage_outputs _ = empty

unfoldable pub output_stage_outputs : Dict → Dict
output_stage_outputs outputs = read_stage_outputs (get "stage_outputs" outputs)

-- `if stage not in completed_stages: completed_stages = (*completed_stages, stage)`
abbrev pub completing : RuntimeStage → List RuntimeStage → List RuntimeStage
completing stage stages = if has_stage stage stages then stages else stages ++ stage ∷ []

-- The `outputs` of a state after a stage.
unfoldable pub record_output : RuntimeStage → Dict → Dict → Dict
unfolding output_stage_outputs
record_output stage output outputs = put "last_completed_stage" (text (stage_value stage)) (
    put "stage_outputs"
      (object (put (stage_value stage) (object output) (output_stage_outputs outputs))) outputs)

-- `_complete_stage`; an `extra_output` of None is the empty dictionary.
unfoldable pub complete_stage : RuntimeWorkflowState → RuntimeStage → Dict → RuntimeWorkflowState
unfolding placeholder_output record_output
complete_stage state stage extra_output =
    let output = update (placeholder_output state stage) extra_output in
    record state {
      current_stage = some stage;
      completed_stages = completing stage state.completed_stages;
      runtime_context =
          put "deterministic_runtime" (bool true)
            (put "last_completed_stage" (text (stage_value stage)) state.runtime_context);
      stage_outputs = put_output stage output state.stage_outputs;
      outputs = record_output stage output state.outputs;
    }

-- What the seven handlers pass on as `extra_output`.
abbrev pub extra_output_of : RuntimeStage → Dict
extra_output_of approval = entry "approval_decision_made" (bool false) empty
extra_output_of email_preparation = entry "email_sent" (bool false) empty
extra_output_of _ = empty

abbrev pub NodeHandler : Type 0
NodeHandler = RuntimeWorkflowState → Result RuntimeWorkflowState

-- `create_deterministic_node_handlers`, whose handler of each stage is `run_<stage>_node`.
abbrev pub deterministic_node_handler : RuntimeStage → NodeHandler
deterministic_node_handler stage state = ok (complete_stage state stage (extra_output_of stage))
