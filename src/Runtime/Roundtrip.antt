-- ===== src/Runtime/Roundtrip.antt =====
-- backend/app/runtime/state_adapter.py: what comes back of a runtime state that is written into a
-- workflow state and read again.
use graduation_project.Prelude.{
  ◌≡◌, refl, sym, ap, ◌∙◌, ◌⊎◌, inl, inr, String, Bool, true, false, Option, none, some, List, [],
  ◌∷◌, ◌++◌, arith, Bool-cases,
}
use mathlib.Core.Path.{subst, ap₂}
use mathlib.Core.List.{append_assoc, append-nil}
use mathlib.Core.Option
use graduation_project.Json.{Json, Dict, text, object, get, put, is_empty}
use graduation_project.Json.Laws.{
  get-put, get-put_self, get-pop_self, get-pop_ne, is_distinct, put-is_distinct,
}
use graduation_project.Stage.{
  RuntimeStage, planner, retrieval, quotation, compliance, validation, approval, email_preparation,
  stage_value, same_stage, runtime_stages,
}
use graduation_project.Schema.{WorkflowState}
use graduation_project.Store.{Result, ok, and_then}
use graduation_project.Runtime.{RuntimeWorkflowState, StageOutputs, output_of}
use graduation_project.Runtime.Texts.{strip, underscored}
use graduation_project.Runtime.Adapter.{
  section, normalized, runtime_stage_from_value, stage_or_none, stages_in, stages_from_values,
  add_raw_outputs, stage_outputs_from_workflow_state, stage_of_text,
}
use graduation_project.Runtime.Convert.{
  workflow_state_to_runtime_state, runtime_state_to_workflow_state, stage_values, context_of,
  put_failed, kept_outputs, outputs_of, set_sections, written,
}
use graduation_project.Runtime.Outputs.{
  is_plain, mentions, mentions-append, put-new, section-set_sections, add_sections-same, or_else,
  same_stage_iff, without-set_sections,
}

plain-parts :
    (s : RuntimeStage) (d : Dict) (outs : StageOutputs)
    → is_plain ((s, d) ∷ outs) ≡ true
    → (mentions s outs ≡ false) × (is_empty d ≡ false) × (is_plain outs ≡ true)
plain-parts s d outs h = (ground arith, ground arith, ground arith)

context-completed :
    (o : Option RuntimeStage) (v : Json) (d : Dict)
    → get "completed_stages" (put_failed o (put "completed_stages" v d)) ≡ some v
context-completed none v d =
    get-pop_ne "failed_stage" "completed_stages" (put "completed_stages" v d) refl
    ∙ get-put_self "completed_stages" v d
context-completed (some s) v d =
    get-put "failed_stage" "completed_stages" (text (stage_value s)) (put "completed_stages" v d)
    ∙ get-put_self "completed_stages" v d

context-failed :
    (o : Option RuntimeStage) (v : Json) (d : Dict)
    → is_distinct d ≡ true
    → get "failed_stage" (put_failed o (put "completed_stages" v d))
      ≡ Option.map text (Option.map stage_value o)
context-failed none v d h =
    get-pop_self "failed_stage" (put "completed_stages" v d)
      (put-is_distinct "completed_stages" v d h)
context-failed (some s) v d h =
    get-put_self "failed_stage" (text (stage_value s)) (put "completed_stages" v d)

same_stage_refl : (s : RuntimeStage) → same_stage s s ≡ true
same_stage_refl s = ground arith

still_apart :
    (s t : RuntimeStage) (d : Dict) (outs acc : StageOutputs)
    → mentions s outs ≡ false
    → (mentions t ((s, d) ∷ outs) ≡ true → mentions t acc ≡ false)
    → mentions t outs ≡ true
    → mentions t (acc ++ (s, d) ∷ []) ≡ false
still_apart s t d outs acc fresh apart h = elim (Bool-cases (same_stage t s)) [
  | inl same ↦ cc (subst (λ u. mentions u outs ≡ true) (same_stage_iff t s same) h, fresh)
  | inr other ↦ ground (arith, mentions-append t acc ((s, d) ∷ []))
]

module _ (lower : String → String) where
  -- `str.lower` leaves the values of the stages, which are in lower case, as they are.
  abbrev pub KeepsStages : Type 0
  KeepsStages = (s : RuntimeStage) → lower (stage_value s) ≡ stage_value s

  value-normalized :
      KeepsStages → (s : RuntimeStage) → normalized lower (stage_value s) ≡ stage_value s
  unfolding normalized strip underscored
  value-normalized keeps planner = rw (keeps planner) refl
  value-normalized keeps retrieval = rw (keeps retrieval) refl
  value-normalized keeps quotation = rw (keeps quotation) refl
  value-normalized keeps compliance = rw (keeps compliance) refl
  value-normalized keeps validation = rw (keeps validation) refl
  value-normalized keeps approval = rw (keeps approval) refl
  value-normalized keeps email_preparation = rw (keeps email_preparation) refl

  text-back : (s : RuntimeStage) (b : Bool) → stage_of_text b (stage_value s) ≡ ok (some s)
  text-back planner b = ground arith
  text-back s true = text-marked s
    where
      text-marked : (s : RuntimeStage) → stage_of_text true (stage_value s) ≡ ok (some s)
      text-marked planner = refl
      text-marked s = refl
  text-back s false = text-plain s
    where
      text-plain : (s : RuntimeStage) → stage_of_text false (stage_value s) ≡ ok (some s)
      text-plain planner = refl
      text-plain s = refl

  stage-back :
      KeepsStages
      → (b : Bool) (s : RuntimeStage)
      → runtime_stage_from_value lower b (some (text (stage_value s))) ≡ ok (some s)
  unfolding runtime_stage_from_value
  stage-back keeps b s = rw (value-normalized keeps s) (text-back s b)

  optional-back :
      KeepsStages
      → (o : Option RuntimeStage)
      → stage_or_none lower (Option.map text (Option.map stage_value o)) ≡ ok o
  unfolding stage_or_none runtime_stage_from_value
  optional-back keeps none = refl
  optional-back keeps (some s) = stage-back keeps true s

  stages-back : KeepsStages → (ss : List RuntimeStage) → stages_in lower (stage_values ss) ≡ ok ss
  unfolding stages_in
  stages-back keeps [] = refl
  stages-back keeps (s ∷ ss) = rw (stage-back keeps false s, stages-back keeps ss) refl

  -- The outputs that were kept come back after those that were there.
  outputs-back :
      KeepsStages
      → (outs acc : StageOutputs) → is_plain outs ≡ true
      → ((s : RuntimeStage) → mentions s outs ≡ true → mentions s acc ≡ false)
      → add_raw_outputs lower (kept_outputs outs) acc ≡ ok (acc ++ outs)
  unfolding add_raw_outputs
  outputs-back keeps [] acc plain apart = ap ok (sym (append-nil acc))
  outputs-back keeps ((s, d) ∷ outs) acc plain apart =
      let (fresh, full, rest) = plain-parts s d outs plain in
      rw
        (
          full,
          stage-back keeps false s,
          put-new s d acc (apart s (ground (arith, same_stage_refl s))),
        )
        (outputs-back keeps outs (acc ++ (s, d) ∷ []) rest
            (λ t h. still_apart s t d outs acc fresh (apart t) h)
          ∙ ap ok (append_assoc acc ((s, d) ∷ []) outs))

module _ (lower : String → String) (keeps : KeepsStages lower) where
  section-back :
      (r : RuntimeWorkflowState) (w v : WorkflowState)
      → is_plain r.stage_outputs ≡ true
      → (s : RuntimeStage) → (output_of s r.stage_outputs ≡ none → is_empty (section s w) ≡ true)
      → section s v ≡ section s w
      → (is_empty (section s (set_sections r.stage_outputs v)) ≡ true)
        ⊎ (output_of s r.stage_outputs ≡ some (section s (set_sections r.stage_outputs v)))
  section-back r w v plain s empties same =
      rw (section-set_sections s r.stage_outputs v plain, same)
        (chosen (output_of s r.stage_outputs) empties)
    where
      chosen :
          (o : Option Dict)
          → (o ≡ none → is_empty (section s w) ≡ true)
          → (is_empty (or_else o (section s w)) ≡ true) ⊎ (o ≡ some (or_else o (section s w)))
      chosen none f = inl (f refl)
      chosen (some d) f = inr refl

  -- The conversion, from the fields that are no sections and the stage outputs.
  abbrev converted : WorkflowState → Result StageOutputs → Result RuntimeWorkflowState
  converted b outs =
      and_then (stage_or_none lower (Option.map text b.current_step)) λ current_stage.
        and_then (stages_from_values lower (get "completed_stages" b.runtime_context)) λ completed.
          and_then (stage_or_none lower (get "failed_stage" b.runtime_context)) λ failed_stage.
            and_then outs λ stage_outputs. ok (record {
              workflow_id = b.workflow_id;
              workflow_type = b.workflow_type;
              domain = b.domain;
              status = b.status;
              request = b.request;
              metadata = b.metadata;
              customer = b.customer;
              items = b.items;
              current_stage = current_stage;
              completed_stages = completed;
              failed_stage = failed_stage;
              runtime_context = b.runtime_context;
              stage_outputs = stage_outputs;
              outputs = b.outputs;
              steps = b.steps;
              error = b.error;
              retry_count = b.retry_count;
              events = b.events;
            })

  read_outputs :
      (v : WorkflowState) (outs : StageOutputs)
      → get "stage_outputs" v.outputs ≡ some (object (kept_outputs outs))
      → is_plain outs ≡ true
      → ((s : RuntimeStage)
          → (is_empty (section s v) ≡ true) ⊎ (output_of s outs ≡ some (section s v)))
      → stage_outputs_from_workflow_state lower v ≡ ok outs
  unfolding stage_outputs_from_workflow_state
  read_outputs v outs there plain sections =
      rw (there, outputs-back lower keeps outs [] plain (λ s h. refl))
        (ap ok (add_sections-same v runtime_stages outs sections))

  outputs_from_written :
      (r : RuntimeWorkflowState) (w v : WorkflowState)
      → is_plain r.stage_outputs ≡ true
      → ((s : RuntimeStage) → output_of s r.stage_outputs ≡ none → is_empty (section s w) ≡ true)
      → ((s : RuntimeStage) → section s v ≡ section s w)
      → v.outputs ≡ outputs_of r
      → stage_outputs_from_workflow_state lower (set_sections r.stage_outputs v)
        ≡ ok r.stage_outputs
  outputs_from_written r w v plain empties same outs =
      read_outputs (set_sections r.stage_outputs v) r.stage_outputs
        (ap (λ u. get "stage_outputs" u.outputs) (without-set_sections r.stage_outputs v)
          ∙ (rw outs (get-put_self "stage_outputs" _ r.outputs)))
        plain (λ s. section-back r w v plain s (empties s) (same s))

  section-written :
      (r : RuntimeWorkflowState) (w : WorkflowState) (s : RuntimeStage)
      → section s (written r w) ≡ section s w
  section-written r w planner = refl
  section-written r w s = refl

  -- A runtime state that is written into a workflow state and read again comes back, with its
  -- completed stages, its failed stage and its stage outputs noted in the runtime context and the
  -- outputs. Asked for are distinct stages with non-empty outputs, a context without a key
  -- twice, and that a section of a stage without an output is empty.
  pub convert-roundtrip :
      (r : RuntimeWorkflowState) (w : WorkflowState)
      → is_plain r.stage_outputs ≡ true
      → is_distinct r.runtime_context ≡ true
      → ((s : RuntimeStage) → output_of s r.stage_outputs ≡ none → is_empty (section s w) ≡ true)
      → workflow_state_to_runtime_state lower (runtime_state_to_workflow_state r w)
        ≡ ok (record r { runtime_context = context_of r; outputs = outputs_of r })
  unfolding workflow_state_to_runtime_state runtime_state_to_workflow_state stages_from_values
  convert-roundtrip r w plain distinct empties =
      ap₂ converted (without-set_sections r.stage_outputs (written r w))
        (outputs_from_written r w (written r w) plain empties (section-written r w) refl)
      ∙ rw
          (
            optional-back lower keeps r.current_stage,
            context-completed r.failed_stage _ r.runtime_context,
            context-failed r.failed_stage _ r.runtime_context distinct,
            stages-back lower keeps r.completed_stages,
            optional-back lower keeps r.failed_stage,
          )
          refl
