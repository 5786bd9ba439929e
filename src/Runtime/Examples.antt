-- ===== src/Runtime/Examples.antt =====
-- The runtime theorems at a workflow with concrete fields, and tests of the adapters.
use graduation_project.Prelude.{
  ◌≡◌, ◌≤◌, ◌↔◌, refl, true, false, none, some, List, [], ◌∷◌, ◌++◌, length,
}
use graduation_project.Json.{text, nil, empty, entry, is_empty}
use graduation_project.Lifecycle.{WorkflowStatus, created, waiting_approval, failed, can_transition}
use graduation_project.Lifecycle
use graduation_project.Stage.{
  RuntimeStage, planner, retrieval, approval, compliance, stage_value, same_stage,
}
use graduation_project.Schema.{Workflow, WorkflowState, EventStatus}
use graduation_project.Store.{ok, err, precondition_failed, find_workflow}
use graduation_project.Workflows.Service.{Actor}
use graduation_project.Workflows.Contract.{with_columns, blank_state}
use graduation_project.Workflows.Delivery.{appended}
use graduation_project.Workflows.Sample.{
  sample, sample-ReadsBack, waiting_row, waiting_state, waiting_session, waiting_row-IsStored,
}
use graduation_project.Runtime.{
  RuntimeWorkflowState, pre_approval_runtime_stages, runtime_stage_status, output_of,
}
use graduation_project.Runtime.Texts.{strip, underscored, bounded_query_part}
use graduation_project.Runtime.Adapter.{
  normalized, runtime_stage_from_value, stage_or_none, stages_from_values,
  stage_outputs_from_workflow_state, section,
}
use graduation_project.Runtime.Convert.{
  workflow_state_to_runtime_state, runtime_state_to_workflow_state, context_of, outputs_of,
}
use graduation_project.Runtime.Rag.{KnowledgeCitation, RagAdapter, evidence_for_results}
use graduation_project.Runtime.Report.{runtime_event}
use graduation_project.Runtime.Service.{run_workflow}
use graduation_project.Runtime.Roundtrip.{convert-roundtrip}
use graduation_project.Runtime.Laws.{stage_failure_iff}
use graduation_project.Runtime.Evidence.{total, evidence_for_results-bounded}
use graduation_project.Runtime.Refusal.{run_workflow-refused}
use graduation_project.Runtime.Ready.{types}
use graduation_project.Runtime.Loop.{nodes}
use graduation_project.Runtime.Run.{waiting_result}
use graduation_project.Runtime.Success.{deterministic_service, run_events, run_workflow-waits}
use graduation_project.Runtime.Sample.{
  sample_engine, sample_engine-ReadsRuntime, sample_engine-StreamsInOrder, created_state,
  created_row, created_session, created_row-IsStored,
}

abbrev nobody : Actor
nobody = record { actor_type = none; actor_id = none }

-- What the created workflow reads as for the runtime.
abbrev created_runtime : RuntimeWorkflowState
created_runtime = record {
  workflow_id = "#iiiiiii";
  workflow_type = graduation_project.Schema.procurement_quotation;
  domain = some "office";
  status = created;
  request = empty;
  metadata = blank_state.metadata;
  customer = empty;
  items = nil;
  current_stage = none;
  completed_stages = [];
  failed_stage = none;
  runtime_context = empty;
  stage_outputs = [];
  outputs = empty;
  steps = nil;
  error = none;
  retry_count = 0;
  events = nil;
}

created_converts :
    workflow_state_to_runtime_state sample.lower (with_columns sample created_row created_state)
    ≡ ok created_runtime
unfolding workflow_state_to_runtime_state stage_outputs_from_workflow_state stages_from_values
    stage_or_none runtime_stage_from_value graduation_project.Workflows.Sample.Fields.tally
created_converts = refl

spaced :
    runtime_stage_from_value sample.lower true (some (text " email-preparation "))
    ≡ ok (some graduation_project.Stage.email_preparation)
unfolding runtime_stage_from_value normalized strip underscored
spaced = refl

squashed : bounded_query_part 9 "  a  bc\n de fg" ≡ "a bc de f"
unfolding bounded_query_part
squashed = refl

run_workflow-waits_example :
    let (answer, t) =
      run_workflow sample_engine sample none 7 nobody
        (deterministic_service sample_engine)
        created_session in
    (answer
      ≡ ok (
          waiting_result (record (nodes pre_approval_runtime_stages created_runtime) {
            status = waiting_approval;
          })))
    × ((v : Workflow) × (find_workflow 7 t.workflows ≡ some v) × (v.status ≡ waiting_approval))
    × (types t.events ≡ [] ++ run_events)
run_workflow-waits_example =
    run_workflow-waits sample sample-ReadsBack none nobody sample_engine sample_engine-ReadsRuntime
      sample_engine-StreamsInOrder created_row created_state created_runtime created_session refl
      created_row-IsStored refl created_converts refl

run_workflow-refused_example :
    let (r, t) =
      run_workflow sample_engine sample none 7 nobody
        (deterministic_service sample_engine)
        waiting_session in
    (r ≡ err precondition_failed)
    × (t.events
        ≡ []
          ++ appended sample
              (runtime_event sample none 7 nobody "workflow.runtime.failed" EventStatus.failed
                "Workflow runtime can only start from CREATED status."
                (entry "status" (text "WAITING_APPROVAL") empty))
              waiting_session
            ∷ [])
    × ((v : Workflow) × (find_workflow 7 t.workflows ≡ some v) × (v.status ≡ waiting_approval))
run_workflow-refused_example =
    run_workflow-refused sample none sample_engine sample-ReadsBack
      (deterministic_service sample_engine) waiting_row waiting_state nobody waiting_session refl
      waiting_row-IsStored refl

abbrev failed_runtime : RuntimeWorkflowState
failed_runtime = record created_runtime {
  status = Lifecycle.failed;
  current_stage = some retrieval;
  completed_stages = planner ∷ retrieval ∷ [];
  failed_stage = some retrieval;
  stage_outputs = (planner, entry "summary" (text "planned") empty) ∷ [];
  runtime_context = entry "failed_stage" (text "approval") empty;
}

convert-roundtrip_example :
    workflow_state_to_runtime_state sample.lower
      (runtime_state_to_workflow_state failed_runtime created_state)
    ≡ ok (record failed_runtime {
      runtime_context = context_of failed_runtime;
      outputs = outputs_of failed_runtime;
    })
convert-roundtrip_example =
    convert-roundtrip sample.lower (λ s. refl) failed_runtime created_state refl refl empty_sections
  where
    empty_sections :
        (s : RuntimeStage)
        → output_of s failed_runtime.stage_outputs ≡ none
        → is_empty (section s created_state) ≡ true
    empty_sections planner h = refl
    empty_sections s h = refl

stage_failure_iff_example :
    (can_transition (runtime_stage_status compliance) failed ≡ true)
    ↔ (same_stage compliance approval ≡ false)
stage_failure_iff_example = stage_failure_iff compliance

abbrev sample_adapter : RagAdapter
sample_adapter = record {
  search = λ q. ok [];
  top_k = 2;
  minimum_score = 0;
  max_context_chars = 100;
  event_payload_max_chars = 100;
}

abbrev sample_citations : List KnowledgeCitation
sample_citations =
    record { excerpt = " Terms of payment "; dumped = empty }
    ∷ record { excerpt = "  "; dumped = empty }
    ∷ record { excerpt = "Warranty"; dumped = empty }
    ∷ []

evidence_for_results-bounded_example :
    (total (evidence_for_results sample_adapter sample_citations) ≤ 100)
    × (length (evidence_for_results sample_adapter sample_citations) ≤ 2)
evidence_for_results-bounded_example = evidence_for_results-bounded sample_adapter sample_citations
