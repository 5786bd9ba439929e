-- ===== src/Api/Examples.antt =====
-- The endpoints at a session with one workflow, which waits for approval.
use graduation_project.Prelude.{
  ◌≡◌, ◌≢◌, ◌⊎◌, refl, inl, true, false, none, some, [], ◌∷◌, ◌++◌, arith,
}
use graduation_project.Json.{text, empty, entry}
use graduation_project.Lifecycle.{
  waiting_approval, approved, completed, can_transition, get_allowed_transitions, created,
}
use graduation_project.Schema.{Workflow, EventStatus}
use graduation_project.Schema.Approval.{ApprovalDecisionRequest, approve}
use graduation_project.Store.{find_workflow}
use graduation_project.Workflows.Contract.{with_columns, transitioned_row, transition_log}
use graduation_project.Workflows.Delivery.{delivered}
use graduation_project.Workflows.Sample.{
  sample, sample-ReadsBack, waiting_row, waiting_state, waiting_session, waiting_row-IsStored,
}
use graduation_project.Approval.Service.{User}
use graduation_project.Approval.Payload.{approval_records_from_payload}
use graduation_project.Approval.Roles.{require_roles, require_any_role, workflow_full_access_roles}
use graduation_project.Runtime.Report.{runtime_event}
use graduation_project.Runtime.Success.{deterministic_service}
use graduation_project.Runtime.Sample.{
  sample_engine, created_row, created_session, created_state, created_row-IsStored,
}
use graduation_project.Api.{
  HttpError, body, http, forbidden, run_refused, transition_details, guarded,
}
use graduation_project.Api.Endpoints.{actor_of, post_transition, post_approval, post_run}
use graduation_project.Api.Answers.{post_transition-answers, post_run-refused}
use graduation_project.Api.Conflicts.{post_approval-conflict}

abbrev boss : User
boss = record { id = 3; email = some "boss@example.com"; role_names = "Manager" ∷ [] }

abbrev clerk : User
clerk = record { id = 4; email = none; role_names = "Sales" ∷ [] }

abbrev request : ApprovalDecisionRequest
request = record { decision = approve; comment = none; request_id = some "r-1"; metadata = empty }

boss_may : require_roles workflow_full_access_roles boss.role_names ≡ true
unfolding require_any_role
boss_may = refl

clerk_gets_403 :
    post_transition sample none sample_engine clerk 7 approved none waiting_session
    ≡ (forbidden, waiting_session)
unfolding post_transition guarded require_any_role
clerk_gets_403 = refl

no_history : approval_records_from_payload sample created_state.approval ≡ some []
unfolding approval_records_from_payload
no_history = refl

post_transition-answers_example :
    let (answer, t) =
      post_transition sample none sample_engine boss 7 completed none waiting_session in
    let row : Workflow =
      transitioned_row sample waiting_session waiting_row waiting_state completed in
    ((can_transition waiting_approval completed ≡ true)
      × (answer ≡ body (with_columns sample row waiting_state))
      × (find_workflow 7 t.workflows ≡ some row)
      × (t.audit_logs
          ≡ [] ++ transition_log sample waiting_row completed (actor_of boss) none ∷ []))
    ⊎ ((can_transition waiting_approval completed ≡ false)
        × (answer
            ≡ http (record {
              status_code = 409;
              code = "invalid_workflow_transition";
              details = transition_details (record {
                from_status = waiting_approval;
                to_status = completed;
                allowed_statuses = get_allowed_transitions waiting_approval;
              });
            }))
        × (t ≡ waiting_session))
post_transition-answers_example =
    post_transition-answers sample none sample_engine boss sample-ReadsBack waiting_row
      waiting_state completed none waiting_session refl waiting_row-IsStored boss_may

post_run-refused_example :
    let (answer, t) =
      post_run sample
        (some (λ e. true))
        sample_engine
        boss
        (deterministic_service sample_engine)
        7
        waiting_session in
    (answer ≡ http run_refused)
    × (t.workflows ≡ waiting_row ∷ [])
    × (t.events ≡ [])
    × (t.audit_logs ≡ [])
    × (t.published
        ≡ []
          ++ delivered sample
              (runtime_event sample
                (some (λ e. true))
                7
                (actor_of boss)
                "workflow.runtime.failed"
                EventStatus.failed
                "Workflow runtime can only start from CREATED status."
                (entry "status" (text "WAITING_APPROVAL") empty))
              waiting_session
              (some (λ e. true)))
post_run-refused_example =
    post_run-refused sample (some (λ e. true)) sample_engine boss sample-ReadsBack
      (deterministic_service sample_engine) waiting_row waiting_state waiting_session refl
      waiting_row-IsStored refl boss_may

not_waiting : created ≢ waiting_approval
not_waiting = λ h. ground (arith, h)

post_approval-conflict_example :
    let (answer, t) = post_approval sample none sample_engine boss 7 request created_session in
    (h : HttpError) × (answer ≡ http h) × (h.status_code ≡ 409) × (t ≡ created_session)
post_approval-conflict_example =
    post_approval-conflict sample none sample_engine boss sample-ReadsBack created_row created_state
      request [] created_session refl created_row-IsStored no_history (inl not_waiting) boss_may
