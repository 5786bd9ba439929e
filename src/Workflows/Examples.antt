-- ===== src/Workflows/Examples.antt =====
-- The workflow services at a session with one workflow, which waits for approval.
use graduation_project.Prelude.{ℕ, ◌&&◌, Bool, List, take, drop}
use graduation_project.Store.{gets, or_raise, ◌>>=◌}
use graduation_project.Store.Actions.{get_by_id}
use graduation_project.Store.Query.{order_by, list_by_workflow_id}
use graduation_project.Workflows.Events.{list_events_for_workflow}
use graduation_project.Workflows.Sorted.{
  count_where, is_ordered, belongs_to, list_events_for_workflow-lists,
}
use graduation_project.Prelude.{◌≡◌, refl, inr, true, false, none, some, [], ◌∷◌, ◌++◌}
use graduation_project.Json.{empty}
use graduation_project.Lifecycle.{
  waiting_approval, approved, completed, can_transition, get_allowed_transitions,
}
use graduation_project.Store.{Session}
use graduation_project.Schema.{
  Uuid, Time, WorkflowEvent, Workflow, WorkflowStateCreate, WorkflowEventCreate,
  procurement_quotation,
}
use graduation_project.Store.{ok, err, find_workflow, invalid_transition, state_mismatch}
use graduation_project.Store.Actions.{stamped}
use graduation_project.Workflows.Service.{
  Actor, create_workflow, transition_workflow_status, update_workflow_state,
}
use graduation_project.Workflows.Events.{append_event}
use graduation_project.Workflows.Contract.{
  blank_state, with_columns, IsStored, transitioned_row, transition_log,
  transition_workflow_status-succeeds, transition_workflow_status-refused,
}
use graduation_project.Workflows.Contract.Writes.{
  new_row, create_workflow-returns, update_workflow_state-succeeds, update_workflow_state-mismatch,
}
use graduation_project.Workflows.Delivery.{appended, delivered, append_event_lem}
use graduation_project.Workflows.Sample.Fields.{tally}
use graduation_project.Workflows.Sample.{
  sample, sample-ReadsBack, waiting_state, waiting_row, waiting_session, waiting_row-IsStored,
}

abbrev someone : Actor
someone = record { actor_type = some "user"; actor_id = some 3 }

may_approve : can_transition waiting_approval approved ≡ true
unfolding can_transition
may_approve = refl

may_not_complete : can_transition waiting_approval completed ≡ false
unfolding can_transition
may_not_complete = refl

transition_workflow_status-succeeds_example :
    let (r, t) = transition_workflow_status sample 7 approved someone none waiting_session in
    let row : Workflow =
      transitioned_row sample waiting_session waiting_row waiting_state approved in
    (r ≡ ok (with_columns sample row waiting_state))
    × (find_workflow 7 t.workflows ≡ some row)
    × (t.audit_logs ≡ transition_log sample waiting_row approved someone none ∷ [])
    × (t.events ≡ [])
    × (t.drawn ≡ 0)
    × (t.readings ≡ 5)
transition_workflow_status-succeeds_example =
    transition_workflow_status-succeeds sample sample-ReadsBack waiting_row waiting_state approved
      someone none waiting_session refl waiting_row-IsStored may_approve

transition_workflow_status-refused_example :
    transition_workflow_status sample 7 completed someone none waiting_session ≡ (
      err (
          invalid_transition (record {
            from_status = waiting_approval;
            to_status = completed;
            allowed_statuses = get_allowed_transitions waiting_approval;
          })),
      waiting_session,
    )
transition_workflow_status-refused_example =
    transition_workflow_status-refused sample 7 waiting_row completed someone none waiting_session
      refl may_not_complete

abbrev wanted : WorkflowStateCreate
wanted = record {
  workflow_type = procurement_quotation;
  domain = some "office";
  request = empty;
  metadata = empty;
}

create_workflow-returns_example :
    let first : Workflow = stamped sample 6 (new_row sample waiting_session wanted (some 3)) in
    (create_workflow sample wanted (some 3) waiting_session).0
    ≡ ok (with_columns sample (stamped sample 7 first) blank_state)
unfolding tally
create_workflow-returns_example =
    create_workflow-returns sample sample-ReadsBack wanted (some 3) waiting_session refl

waiting_state-IsStored :
    IsStored sample
      (record waiting_row { state_payload = sample.dump_state waiting_state })
      waiting_state
unfolding tally
waiting_state-IsStored = record { dumped = refl; typed = refl; bounded = refl }

named_alike : waiting_state.workflow_id ≡ sample.uuid_str 7
unfolding tally
named_alike = refl

update_workflow_state-succeeds_example :
    let (r, t) = update_workflow_state sample 7 waiting_state someone none waiting_session in
    let final : Workflow =
      stamped sample 6 (record waiting_row { state_payload = sample.dump_state waiting_state }) in
    (r ≡ ok (with_columns sample final waiting_state))
    × (find_workflow 7 t.workflows ≡ some final)
    × (t.events ≡ [])
update_workflow_state-succeeds_example =
    update_workflow_state-succeeds sample sample-ReadsBack waiting_row waiting_state someone none
      waiting_session refl named_alike refl waiting_state-IsStored

update_workflow_state-mismatch_example :
    update_workflow_state sample 7 blank_state someone none waiting_session
    ≡ (err state_mismatch, waiting_session)
update_workflow_state-mismatch_example =
    update_workflow_state-mismatch sample waiting_row blank_state someone none waiting_session refl
      (inr λ e. cc e)

abbrev noted : WorkflowEventCreate
noted = record {
  workflow_id = 7;
  event_type = "workflow.noted";
  actor_type = none;
  actor_id = none;
  agent_name = none;
  status = none;
  message = none;
  payload = empty;
}

append_event_lem_example :
    let (r, t) = append_event sample (some λ e. false) noted waiting_session in
    (r ≡ ok (appended sample noted waiting_session))
    × (t.events ≡ appended sample noted waiting_session ∷ [])
    × (t.published ≡ [] ++ delivered sample noted waiting_session (some λ e. false))
append_event_lem_example =
    append_event_lem sample noted waiting_session (some λ e. false) waiting_row refl

abbrev noted_at : Uuid → Uuid → Time → WorkflowEvent
noted_at e i t = record {
  event_id = e;
  content = record noted { workflow_id = i };
  created_at = t;
  updated_at = t;
}

-- Two events of the workflow, the later one first, and one of another workflow.
abbrev mixed_session : Session
mixed_session = record waiting_session {
  events = noted_at 31 7 9 ∷ noted_at 32 8 4 ∷ noted_at 33 7 4 ∷ [];
}

second_page_test :
    list_events_for_workflow 7 5 1 mixed_session ≡ (ok (noted_at 31 7 9 ∷ []), mixed_session)
unfolding list_events_for_workflow get_by_id gets or_raise ◌>>=◌ list_by_workflow_id order_by
second_page_test = refl

list_events_for_workflow-lists_example :
    (full : List WorkflowEvent) × ((limit offset : ℕ)
      → list_events_for_workflow 7 limit offset mixed_session
        ≡ (ok (take limit (drop offset full)), mixed_session))
    × (is_ordered full ≡ true)
    × ((p : WorkflowEvent → Bool)
        → count_where p full ≡ count_where (λ e. belongs_to 7 e && p e) mixed_session.events)
list_events_for_workflow-lists_example =
    list_events_for_workflow-lists 7 waiting_row mixed_session refl
