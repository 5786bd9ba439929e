-- ===== src/Runtime/Refusal.antt =====
-- Runs that the runtime does not start, and failures that it records
-- (backend/app/runtime/service.py).
use graduation_project.Prelude.{◌≡◌, refl, false, some, [], ◌∷◌, ◌++◌}
use graduation_project.Json.{text, empty, entry}
use graduation_project.Lifecycle.{created, status_value, same_status}
use graduation_project.Schema.{Workflow, WorkflowState, WorkflowEventCreate, failed}
use graduation_project.Store.{
  Platform, Session, ok, err, precondition_failed, find_workflow, pure, gets, raise, or_raise,
  ◌>>=◌,
}
use graduation_project.Store.Actions.{get_by_id}
use graduation_project.Workflows.Service.{Actor, get_workflow}
use graduation_project.Workflows.Events.{Publisher}
use graduation_project.Workflows.Contract.{ReadsBack, IsStored, with_columns, to_state_stored}
use graduation_project.Workflows.Delivery.{appended, append_event_lem, append_event-row}
use graduation_project.Runtime.Graph.{Engine}
use graduation_project.Runtime.Report.{append_runtime_failed_event, runtime_event}
use graduation_project.Runtime.Reported.{append_runtime_event_lem}
use graduation_project.Runtime.Stages.{RuntimeService}
use graduation_project.Runtime.Service.{refuse_run, run_found, run_workflow}

module _ (P : Platform) (publisher : Publisher) (E : Engine) where
  -- What a stored row reads as.
  pub get_workflow-stored :
      ReadsBack P
      → (w : Workflow) (state : WorkflowState) (s : Session)
      → find_workflow w.id s.workflows ≡ some w
      → IsStored P w state
      → get_workflow P w.id s ≡ (ok (some (with_columns P w state)), s)
  unfolding get_workflow get_by_id gets pure ◌>>=◌
  get_workflow-stored law w state s here h = rw (here, to_state_stored P law w state s h) refl

  -- The run of a stored row is the run of the state that it reads as.
  pub run_workflow-found :
      ReadsBack P
      → (R : RuntimeService) (w : Workflow) (state : WorkflowState) (actor : Actor) (s : Session)
      → find_workflow w.id s.workflows ≡ some w
      → IsStored P w state
      → run_workflow E P publisher w.id actor R s
        ≡ run_found E P publisher w.id actor R (with_columns P w state) s
  unfolding run_workflow or_raise ◌>>=◌
  run_workflow-found law R w state actor s here h =
      rw (get_workflow-stored law w state s here h) refl

  -- Where dumps read back, the run of a stored workflow that is not in CREATED raises the
  -- precondition error. One event that says so is added, and the status of the row is kept.
  pub run_workflow-refused :
      ReadsBack P
      → (R : RuntimeService) (w : Workflow) (state : WorkflowState) (actor : Actor) (s : Session)
      → find_workflow w.id s.workflows ≡ some w
      → IsStored P w state
      → same_status w.status created ≡ false
      → let (r, t) = run_workflow E P publisher w.id actor R s in
        let event : WorkflowEventCreate =
          runtime_event P publisher w.id actor "workflow.runtime.failed" failed
            "Workflow runtime can only start from CREATED status."
            (entry "status" (text (status_value w.status)) empty) in
        (r ≡ err precondition_failed)
        × (t.events ≡ s.events ++ appended P event s ∷ [])
        × ((v : Workflow) × (find_workflow w.id t.workflows ≡ some v) × (v.status ≡ w.status))
  unfolding run_found refuse_run append_runtime_failed_event raise ◌>>=◌
  run_workflow-refused law R w state actor s here h other =
      rw
        (
          run_workflow-found law R w state actor s here h,
          other,
          append_runtime_event_lem P publisher w actor "workflow.runtime.failed" failed
              "Workflow runtime can only start from CREATED status."
              (entry "status" (text (status_value w.status)) empty) s here,
        )
        (
          refl,
          (append_event_lem P _ s publisher w here).1,
          (_, append_event-row P _ s publisher w here, refl),
        )
