-- ===== src/Runtime/Adapter.antt =====
-- backend/app/runtime/state_adapter.py: between the persisted state and the runtime's. Python's
-- `str.lower` is the platform's.
use graduation_project.Prelude.{
  String, Bool, true, false, Option, none, some, List, [], ◌∷◌, any, ◌&&◌, ◌==◌, if◌then◌else◌,
}
use graduation_project.Json.{
  Json, Items, Dict, null, text, array, object, nil, cons, empty, entry, get, is_empty,
}
use graduation_project.Stage.{
  RuntimeStage, planner, retrieval, quotation, compliance, validation, approval, email_preparation,
  stage_value, runtime_stages,
}
use graduation_project.Schema.{WorkflowState}
use graduation_project.Store.{Result, ok, err, unknown_stage, raised, and_then}
use graduation_project.Runtime.Texts.{strip, underscored}
use graduation_project.Runtime.{StageOutputs, put_output}

-- `getattr(state, _STAGE_TO_WORKFLOW_SECTION[stage])`
abbrev pub section : RuntimeStage → WorkflowState → Dict
section planner w = w.planner
section retrieval w = w.retrieval
section quotation w = w.quotation
section compliance w = w.compliance
section validation w = w.validation
section approval w = w.approval
section email_preparation w = w.email

abbrev pub set_section : RuntimeStage → Dict → WorkflowState → WorkflowState
set_section planner d w = record w { planner = d }
set_section retrieval d w = record w { retrieval = d }
set_section quotation d w = record w { quotation = d }
set_section compliance d w = record w { compliance = d }
set_section validation d w = record w { validation = d }
set_section approval d w = record w { approval = d }
set_section email_preparation d w = record w { email = d }

-- `_INITIAL_STAGE_MARKERS`
abbrev initial_stage_markers : List String
initial_stage_markers =
    "" ∷ "created" ∷ "not_started" ∷ "not started" ∷ "not-started" ∷ "none" ∷ "null" ∷ []

-- The first stage in the list with the given value.
abbrev pub stage_named : String → List RuntimeStage → Option RuntimeStage
stage_named s [] = none
stage_named s (stage ∷ stages) = if s == stage_value stage then some stage else stage_named s stages

abbrev known : Option RuntimeStage → Result (Option RuntimeStage)
known none = err unknown_stage
known (some stage) = ok (some stage)

abbrev pub stage_of_text : Bool → String → Result (Option RuntimeStage)
stage_of_text allow_initial normalized =
    if allow_initial && any (λ m. normalized == m) initial_stage_markers
    then ok none
    else known (stage_named normalized runtime_stages)

abbrev pub required : Result (Option RuntimeStage) → Result RuntimeStage
required (ok none) = err unknown_stage
required (ok (some stage)) = ok stage
required (err e) = err e

-- `dict(output) if isinstance(output, dict) else {}`
abbrev pub output_or_empty : Json → Dict
output_or_empty (object d) = d
output_or_empty _ = empty

-- `for stage, section_name in _STAGE_TO_WORKFLOW_SECTION.items()`
abbrev pub add_sections : WorkflowState → List RuntimeStage → StageOutputs → StageOutputs
add_sections w [] outs = outs
add_sections w (stage ∷ stages) outs =
    add_sections w stages
      (if is_empty (section stage w) then outs else put_output stage (section stage w) outs)

module _ (lower : String → String) where
  unfoldable pub normalized : String → String
  unfolding strip underscored
  normalized s = underscored (lower (strip s))

  -- `_runtime_stage_from_value`; a missing key reads as None.
  unfoldable pub runtime_stage_from_value : Bool → Option Json → Result (Option RuntimeStage)
  unfolding normalized
  runtime_stage_from_value allow_initial none = ok none
  runtime_stage_from_value allow_initial (some null) = ok none
  runtime_stage_from_value allow_initial (some (text s)) =
      stage_of_text allow_initial (normalized s)
  runtime_stage_from_value allow_initial (some _) = err unknown_stage

  -- `_stage_or_none`
  unfoldable pub stage_or_none : Option Json → Result (Option RuntimeStage)
  unfolding runtime_stage_from_value
  stage_or_none value = runtime_stage_from_value true value

  abbrev pub required_stage : Json → Result RuntimeStage
  required_stage v = required (runtime_stage_from_value false (some v))

  unfoldable pub stages_in : Items → Result (List RuntimeStage)
  unfolding runtime_stage_from_value
  stages_in nil = ok []
  stages_in (cons v vs) =
      and_then (required_stage v) λ stage. and_then (stages_in vs) λ stages. ok (stage ∷ stages)

  -- The keys of a dictionary, which is what iterating over it gives.
  unfoldable pub stages_in_keys : Dict → Result (List RuntimeStage)
  unfolding runtime_stage_from_value
  stages_in_keys empty = ok []
  stages_in_keys (entry k v d) =
      and_then (required_stage (text k))
        λ stage. and_then (stages_in_keys d) λ stages. ok (stage ∷ stages)

  -- `_stages_from_values`
  unfoldable pub stages_from_values : Option Json → Result (List RuntimeStage)
  unfolding stages_in stages_in_keys
  stages_from_values none = ok []
  stages_from_values (some null) = ok []
  stages_from_values (some (text s)) = if s == "" then ok [] else err (raised "TypeError")
  stages_from_values (some (array vs)) = stages_in vs
  stages_from_values (some (object d)) = stages_in_keys d
  stages_from_values (some _) = err (raised "TypeError")

  unfoldable pub add_raw_outputs : Dict → StageOutputs → Result StageOutputs
  unfolding runtime_stage_from_value
  add_raw_outputs empty outs = ok outs
  add_raw_outputs (entry k v d) outs =
      and_then (required_stage (text k))
        λ stage. add_raw_outputs d (put_output stage (output_or_empty v) outs)

  abbrev pub raw_outputs : Option Json → Result StageOutputs
  raw_outputs (some (object d)) = add_raw_outputs d []
  raw_outputs _ = ok []

  -- `_stage_outputs_from_workflow_state`
  unfoldable pub stage_outputs_from_workflow_state : WorkflowState → Result StageOutputs
  unfolding add_raw_outputs
  stage_outputs_from_workflow_state w =
      and_then (raw_outputs (get "stage_outputs" w.outputs))
        λ outs. ok (add_sections w runtime_stages outs)
