-- ===== src/Runtime/Convert.antt =====
-- backend/app/runtime/state_adapter.py: the two conversions.
use graduation_project.Prelude.{String, Option, none, some, List, [], ◌∷◌, if◌then◌else◌}
use mathlib.Core.Option
use graduation_project.Json.{
  Items, Dict, text, array, object, nil, cons, empty, entry, get, put, pop, is_empty,
}
use graduation_project.Stage.{RuntimeStage, stage_value}
use graduation_project.Schema.{WorkflowState}
use graduation_project.Store.{Result, ok, and_then}
use graduation_project.Runtime.{RuntimeWorkflowState, StageOutputs}
use graduation_project.Runtime.Adapter.{
  set_section, stage_or_none, stages_from_values, stage_outputs_from_workflow_state,
}

module _ (lower : String → String) where
  unfoldable pub workflow_state_to_runtime_state : WorkflowState → Result RuntimeWorkflowState
  unfolding stage_or_none stages_from_values stage_outputs_from_workflow_state
  workflow_state_to_runtime_state w =
      and_then (stage_or_none lower (Option.map text w.current_step)) λ current_stage.
        and_then (stages_from_values lower (get "completed_stages" w.runtime_context)) λ completed.
          and_then (stage_or_none lower (get "failed_stage" w.runtime_context)) λ failed_stage.
            and_then (stage_outputs_from_workflow_state lower w) λ stage_outputs. ok (record {
              workflow_id = w.workflow_id;
              workflow_type = w.workflow_type;
              domain = w.domain;
              status = w.status;
              request = w.request;
              metadata = w.metadata;
              customer = w.customer;
              items = w.items;
              current_stage = current_stage;
              completed_stages = completed;
              failed_stage = failed_stage;
              runtime_context = w.runtime_context;
              stage_outputs = stage_outputs;
              outputs = w.outputs;
              steps = w.steps;
              error = w.error;
              retry_count = w.retry_count;
              events = w.events;
            })

abbrev pub stage_values : List RuntimeStage → Items
stage_values [] = nil
stage_values (stage ∷ stages) = cons (text (stage_value stage)) (stage_values stages)

-- The write of `failed_stage` in the runtime context, which a None takes out.
abbrev pub put_failed : Option RuntimeStage → Dict → Dict
put_failed none d = pop "failed_stage" d
put_failed (some stage) d = put "failed_stage" (text (stage_value stage)) d

abbrev pub context_of : RuntimeWorkflowState → Dict
context_of r =
    put_failed r.failed_stage
      (put "completed_stages" (array (stage_values r.completed_stages)) r.runtime_context)

-- `{stage.value: dict(output) for stage, output in stage_outputs.items() if output}`
abbrev pub kept_outputs : StageOutputs → Dict
kept_outputs [] = empty
kept_outputs ((stage, d) ∷ outs) =
    let rest = kept_outputs outs in
    if is_empty d then rest else entry (stage_value stage) (object d) rest

abbrev pub outputs_of : RuntimeWorkflowState → Dict
outputs_of r = put "stage_outputs" (object (kept_outputs r.stage_outputs)) r.outputs

-- `_workflow_section_updates`, written into the state.
abbrev pub set_sections : StageOutputs → WorkflowState → WorkflowState
set_sections [] w = w
set_sections ((stage, d) ∷ outs) w = set_sections outs (set_section stage d w)

-- The fields of `runtime_state_to_workflow_state` other than the sections.
abbrev pub written : RuntimeWorkflowState → WorkflowState → WorkflowState
written r w = record w {
  workflow_id = r.workflow_id;
  workflow_type = r.workflow_type;
  domain = r.domain;
  status = r.status;
  request = r.request;
  metadata = r.metadata;
  customer = r.customer;
  items = r.items;
  current_step = Option.map stage_value r.current_stage;
  runtime_context = context_of r;
  outputs = outputs_of r;
  steps = r.steps;
  error = r.error;
  retry_count = r.retry_count;
  events = r.events;
}

unfoldable pub runtime_state_to_workflow_state :
    RuntimeWorkflowState → WorkflowState → WorkflowState
runtime_state_to_workflow_state r w = set_sections r.stage_outputs (written r w)
