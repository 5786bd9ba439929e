-- ===== src/Serving/Examples.antt =====
-- The theorem on sequences of calls at the session with one workflow in CREATED.
use graduation_project.Prelude.{◌≡◌, refl, true, none, some, List, [], ◌∷◌, map}
use graduation_project.Lifecycle.{
  WorkflowStatus, created, planning, retrieving, calculating, checking_compliance, validating,
  waiting_approval, approved, generating_email, validate_transition,
}
use graduation_project.Json.{empty}
use graduation_project.Schema.{WorkflowStateCreate, AuditLog, procurement_quotation}
use graduation_project.Workflows.Contract.{blank_state}
use graduation_project.Workflows.Trail.{trail, moves}
use graduation_project.Lifecycle.Paths.{Follows, last_status}
use graduation_project.Lifecycle.Gate.{visits}
use graduation_project.Store.{gets, pure, or_raise, check, modify, ◌>>=◌}
use graduation_project.Store.Actions.{
  get_by_id, update_status, save, flush_row, create_log, update_state_payload,
}
use graduation_project.Workflows.Audit.{append_audit_log, audit_workflow_status_transitioned}
use graduation_project.Workflows.Service.{
  Actor, transition_workflow_status, get_required_workflow, store_state, workflow_to_state,
}
use graduation_project.Workflows.Evolution.{Evolves}
use graduation_project.Workflows.Sample.{sample, dump_state, validate_state}
use graduation_project.Workflows.Sample.Fields.{tally}
use graduation_project.Runtime.Success.{deterministic_service}
use graduation_project.Runtime.Sample.{sample_engine, created_row, created_session}
use graduation_project.Serving.{
  Call, create, AllFresh, IsFreshFor, transition, run, resume, perform, serve, serve-Evolves,
  serve-gate,
}

abbrev wanted : WorkflowStateCreate
wanted = record {
  workflow_type = procurement_quotation;
  domain = some "office";
  request = empty;
  metadata = blank_state.metadata;
}

abbrev calls : List Call
calls =
    create wanted (some 3)
    ∷ run (deterministic_service sample_engine) 7 (record { actor_type = none; actor_id = none })
    ∷ resume (deterministic_service sample_engine) 7 none
        (record { actor_type = none; actor_id = some 3 })
    ∷ []

calls_fresh : AllFresh sample none sample_engine calls created_session
unfolding AllFresh IsFreshFor
calls_fresh = (refl, (tt, (tt, tt)))

serve-Evolves_example :
    Evolves created_session (serve sample none sample_engine calls created_session)
serve-Evolves_example = serve-Evolves sample none sample_engine calls created_session calls_fresh

abbrev nobody : Actor
nobody = record { actor_type = none; actor_id = none }

abbrev moves_to : List WorkflowStatus → List Call
moves_to = map (λ st. transition 7 st nobody none)

abbrev ladder : List WorkflowStatus
ladder =
    planning ∷ retrieving ∷ calculating ∷ checking_compliance ∷ validating ∷ waiting_approval
    ∷ approved ∷ generating_email ∷ []

moves_fresh : AllFresh sample none sample_engine (moves_to ladder) created_session
unfolding AllFresh IsFreshFor
moves_fresh = (tt, (tt, (tt, (tt, (tt, (tt, (tt, (tt, tt))))))))

serve-gate_example :
    (route : List WorkflowStatus) × (logs : List AuditLog) × ((serve sample none sample_engine
        (moves_to ladder)
        created_session).audit_logs
      ≡ logs)
    × (trail 7 logs ≡ moves created route)
    × Follows created route
    × (last_status created route ≡ generating_email)
    × (visits waiting_approval route ≡ true)
    × (visits approved route ≡ true)
unfolding serve perform transition_workflow_status get_required_workflow get_by_id gets or_raise
    check update_status save flush_row audit_workflow_status_transitioned append_audit_log
    create_log modify ◌>>=◌ store_state workflow_to_state update_state_payload validate_transition
    dump_state validate_state tally pure
serve-gate_example =
    serve-gate sample none sample_engine (moves_to ladder) 7 created_row _ created_session
      moves_fresh refl refl refl refl
