-- ===== src/Api/Answers.antt =====
-- Answers of the endpoints that change a workflow (backend/app/api/v1/workflows.py) and what they
-- leave behind.
use graduation_project.Prelude.{
  String, ◌≡◌, refl, true, false, Option, some, [], ◌∷◌, ◌++◌, ◌⊎◌, inl, inr, Bool-cases,
}
use graduation_project.Json.{text, empty, entry}
use graduation_project.Lifecycle.{
  WorkflowStatus, created, status_value, same_status, can_transition, get_allowed_transitions,
}
use graduation_project.Schema.{Workflow, WorkflowState, failed}
use graduation_project.Store.{Platform, Session, find_workflow, raise, ◌>>=◌}
use graduation_project.Workflows.Events.{Publisher}
use graduation_project.Workflows.Contract.{
  ReadsBack, IsStored, with_columns, transitioned_row, transition_log,
  transition_workflow_status-succeeds, transition_workflow_status-refused,
}
use graduation_project.Workflows.Delivery.{delivered, append_event_lem}
use graduation_project.Approval.Service.{User}
use graduation_project.Approval.Roles.{require_roles, workflow_full_access_roles}
use graduation_project.Runtime.Graph.{Engine}
use graduation_project.Runtime.Report.{append_runtime_failed_event, runtime_event}
use graduation_project.Runtime.Reported.{append_runtime_event_lem}
use graduation_project.Runtime.Stages.{RuntimeService}
use graduation_project.Runtime.Service.{refuse_run, run_found}
use graduation_project.Runtime.Refusal.{run_workflow-found}
use graduation_project.Api.{
  body, http, transition_details, run_refused, map_workflow_exception, closed, respond, guarded,
}
use graduation_project.Api.Endpoints.{actor_of, post_transition, post_run}

module _ (P : Platform) (publisher : Publisher) (E : Engine) (user : User) where
  -- Where dumps read back, a user with full access who asks for a transition of a stored workflow
  -- gets one of two answers. If the table allows the transition, the body is the stored state
  -- under the new status, the row is written so, and one audit record is added. Otherwise the
  -- answer is the 409 that names both statuses and the sorted statuses that are allowed, and the
  -- session is as before.
  pub post_transition-answers :
      ReadsBack P
      → (w : Workflow) (state : WorkflowState) (to_status : WorkflowStatus) (reason : Option String)
        (s : Session)
      → find_workflow w.id s.workflows ≡ some w
      → IsStored P w state
      → require_roles workflow_full_access_roles user.role_names ≡ true
      → let (answer, t) = post_transition P publisher E user w.id to_status reason s in
        let row : Workflow = transitioned_row P s w state to_status in
        ((can_transition w.status to_status ≡ true)
          × (answer ≡ body (with_columns P row state))
          × (find_workflow w.id t.workflows ≡ some row)
          × (t.audit_logs
              ≡ s.audit_logs ++ transition_log P w to_status (actor_of user) reason ∷ []))
        ⊎ ((can_transition w.status to_status ≡ false)
            × (answer
                ≡ http (record {
                  status_code = 409;
                  code = "invalid_workflow_transition";
                  details = transition_details (record {
                    from_status = w.status;
                    to_status = to_status;
                    allowed_statuses = get_allowed_transitions w.status;
                  });
                }))
            × (t ≡ s))
  unfolding post_transition guarded respond closed map_workflow_exception
  post_transition-answers law w state to_status reason s here h access =
      elim (Bool-cases (can_transition w.status to_status)) [
        | inl allowed ↦
            let (returns, found, logged, _, _, _) =
              transition_workflow_status-succeeds P law w state to_status (actor_of user) reason s
                here h allowed in
            inl (rw (access, returns) (allowed, refl, found, logged))
        | inr blocked ↦ inr (
            rw
              (
                access,
                transition_workflow_status-refused P w.id w to_status (actor_of user) reason s here
                    blocked,
              )
              (blocked, refl, refl))
      ]

  -- Where dumps read back, a user with full access who asks to run a stored workflow that is not in
  -- CREATED is answered with the 409 of the precondition. Workflows, events and audit rows are as
  -- before, but the event that reports the failure has been handed to the publisher.
  pub post_run-refused :
      ReadsBack P
      → (R : RuntimeService) (w : Workflow) (state : WorkflowState) (s : Session)
      → find_workflow w.id s.workflows ≡ some w
      → IsStored P w state
      → same_status w.status created ≡ false
      → require_roles workflow_full_access_roles user.role_names ≡ true
      → let (answer, t) = post_run P publisher E user R w.id s in
        (answer ≡ http run_refused)
        × (t.workflows ≡ s.workflows)
        × (t.events ≡ s.events)
        × (t.audit_logs ≡ s.audit_logs)
        × (t.published
            ≡ s.published
              ++ delivered P
                  (runtime_event P publisher w.id
                    (actor_of user)
                    "workflow.runtime.failed"
                    failed
                    "Workflow runtime can only start from CREATED status."
                    (entry "status" (text (status_value w.status)) empty))
                  s
                  publisher)
  unfolding post_run guarded respond closed run_found refuse_run append_runtime_failed_event raise
      ◌>>=◌
  post_run-refused law R w state s here h other access =
      rw
        (
          access,
          run_workflow-found P publisher E law R w state (actor_of user) s here h,
          other,
          append_runtime_event_lem P publisher w (actor_of user) "workflow.runtime.failed" failed
              "Workflow runtime can only start from CREATED status."
              (entry "status" (text (status_value w.status)) empty) s here,
        )
        (refl, refl, refl, refl, (append_event_lem P _ s publisher w here).2)
