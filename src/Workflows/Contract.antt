-- ===== src/Workflows/Contract.antt =====
-- What a status transition returns and writes, for every outcome, and what is asked of pydantic.
pub mod Writes
use graduation_project.Prelude.{
  ℕ, suc, ◌+◌, String, ◌≡◌, refl, sym, ◌∙◌, Bool, true, false, Option, none, some, List, [], ◌∷◌,
  ◌++◌, ap, arith, map,
}
use mathlib.Core.Option
use mathlib.Core.Path.{subst}
use graduation_project.Json.{Json, Dict, Items, nil, number, object, text, empty, entry, update}
use graduation_project.Lifecycle.{
  WorkflowStatus, created, status_value, can_transition, get_allowed_transitions,
  validate_transition,
}
use graduation_project.Lifecycle.Table.{validate_transition-allowed, validate_transition-refused}
use graduation_project.Schema.{
  Uuid, WorkflowType, procurement_quotation, type_value, WorkflowStateCreate, WorkflowState,
  Workflow, AuditLog, within_bounds,
}
use graduation_project.Store.{
  Platform, Session, Error, Result, ok, err, Action, workflow_not_found, invalid_transition,
  state_mismatch, or_raise, check, gets, pure, modify, ◌>>=◌, find_workflow, set_workflow,
}
use graduation_project.Store.Actions.{
  get_by_id, create_log, update_status, update_state_payload, save, flush_row, stamped,
}
use graduation_project.Store.Rows.{find-set_self, find-stamped, find_id}
use graduation_project.Workflows.Audit.{
  append_audit_log, audit_workflow_status_transitioned, put_present,
}
use graduation_project.Workflows.Service.{
  Actor, refusal, columns, workflow_to_state, get_required_workflow, store_state,
  transition_workflow_status,
}

-- The state that pydantic builds where the payload has nothing but the columns.
abbrev pub blank_state : WorkflowState
blank_state = record {
  workflow_type = procurement_quotation;
  domain = none;
  request = empty;
  metadata =
      entry "state_version" (number 1)
        (entry "tags" (object empty) (entry "attributes" (object empty) empty));
  workflow_id = "";
  status = created;
  customer = empty;
  items = nil;
  planner = empty;
  retrieval = empty;
  quotation = empty;
  compliance = empty;
  validation = empty;
  approval = empty;
  email = empty;
  current_step = none;
  runtime_context = empty;
  outputs = empty;
  steps = nil;
  error = none;
  retry_count = 0;
  events = nil;
  created_at = none;
  updated_at = none;
}

module _ (P : Platform) where
  -- A state under the columns of a row, which override its own entries.
  abbrev pub with_columns : Workflow → WorkflowState → WorkflowState
  with_columns w s = record s {
    workflow_id = P.uuid_str w.id;
    workflow_type = procurement_quotation;
    domain = w.domain;
    status = w.status;
    request = w.request_payload;
    created_at = some w.created_at;
    updated_at = some w.updated_at;
  }

  -- What pydantic's documentation promises of a dump that is validated again: within the bounds of
  -- the fields, the values come back, and absent keys get their defaults.
  pub record ReadsBack : Type 0 where
    pub reads_dump :
        (s : WorkflowState) (w : Workflow)
        → w.workflow_type ≡ type_value procurement_quotation
        → within_bounds (with_columns w s) ≡ true
        → P.validate_state (update (P.dump_state s) (columns P w)) ≡ some (with_columns w s)
    pub reads_blank :
        (w : Workflow)
        → w.workflow_type ≡ type_value procurement_quotation
        → within_bounds (with_columns w blank_state) ≡ true
        → P.validate_state (update empty (columns P w)) ≡ some (with_columns w blank_state)

  -- A row whose payload is the dump of a state that the schema accepts.
  pub record IsStored (w : Workflow) (state : WorkflowState) : Type 0 where
    pub dumped : w.state_payload ≡ P.dump_state state
    pub typed : w.workflow_type ≡ type_value procurement_quotation
    pub bounded : within_bounds (with_columns w state) ≡ true

  pub to_state_stored :
      ReadsBack
      → (w : Workflow) (state : WorkflowState) (s : Session) → IsStored w state
      → workflow_to_state P w s ≡ (ok (with_columns w state), s)
  unfolding workflow_to_state or_raise
  to_state_stored law w state s h = rw (h.dumped, law.reads_dump state w h.typed h.bounded)

  -- The row that a transition leaves: two flushes after the status write.
  abbrev pub transitioned_row : Session → Workflow → WorkflowState → WorkflowStatus → Workflow
  transitioned_row s w state to_status =
      let first : Workflow = stamped P s.flushes (record w { status = to_status }) in
      stamped P (s.flushes + 1)
        (record first { state_payload = P.dump_state (with_columns first state) })

  -- The audit record of a transition.
  abbrev pub transition_log : Workflow → WorkflowStatus → Actor → Option String → AuditLog
  transition_log w to_status actor reason = record {
    action = "workflow.status_transitioned";
    workflow_id = some w.id;
    actor_type = actor.actor_type;
    actor_id = actor.actor_id;
    resource_type = some "workflow";
    resource_id = some w.id;
    payload = put_present "reason" reason (
        entry "workflow_id" (text (P.uuid_str w.id)) (
          entry "old_status" (text (status_value w.status))
            (entry "new_status" (text (status_value to_status)) empty)));
  }

  store_state_stored :
      ReadsBack
      → (w : Workflow) (state : WorkflowState) (s : Session) → IsStored w state
      → store_state P w s ≡ (
        ok (
            with_columns
              (stamped P s.flushes
                (record w { state_payload = P.dump_state (with_columns w state) }))
              state),
        record s {
          workflows = map (stamped P s.flushes) (
              set_workflow
                (record w { state_payload = P.dump_state (with_columns w state) })
                s.workflows);
          flushes = s.flushes + 1;
        },
      )
  unfolding store_state update_state_payload save flush_row ◌>>=◌
  store_state_stored law w state s h = rw (to_state_stored law w state s h) (
      to_state_stored law
        (stamped P s.flushes (record w { state_payload = P.dump_state (with_columns w state) }))
        (with_columns w state) _ (record { dumped = refl; typed = h.typed; bounded = h.bounded }))

  -- A row written, flushed, written and flushed again.
  written_twice :
      (n : ℕ) (u v w : Workflow) (ws : List Workflow)
      → find_workflow u.id ws ≡ some w
      → v.id ≡ u.id
      → find_workflow v.id
          (map (stamped P (n + 1)) (set_workflow v (map (stamped P n) (set_workflow u ws))))
        ≡ some (stamped P (n + 1) v)
  written_twice n u v w ws here same =
      find-stamped P (n + 1) v.id _
      ∙ ap (Option.map (stamped P (n + 1))) (
          find-set_self v (stamped P n u) _ (
            rw same (
              find-stamped P n u.id _ ∙ ap (Option.map (stamped P n)) (find-set_self u w ws here))))

  -- Where dumps read back, an allowed transition of a stored row succeeds. It returns the stored
  -- state under the new status and time stamp, writes the row so, and appends one audit record
  -- that names the old and the new status. It appends no event, draws no key and reads no clock.
  pub transition_workflow_status-succeeds :
      ReadsBack
      → (w : Workflow) (state : WorkflowState) (to_status : WorkflowStatus) (actor : Actor)
        (reason : Option String) (s : Session)
      → find_workflow w.id s.workflows ≡ some w
      → IsStored w state
      → can_transition w.status to_status ≡ true
      → let (r, t) = transition_workflow_status P w.id to_status actor reason s in
        (r ≡ ok (with_columns (transitioned_row s w state to_status) state))
        × (find_workflow w.id t.workflows ≡ some (transitioned_row s w state to_status))
        × (t.audit_logs ≡ s.audit_logs ++ transition_log w to_status actor reason ∷ [])
        × (t.events ≡ s.events)
        × (t.drawn ≡ s.drawn)
        × (t.readings ≡ s.readings)
  unfolding transition_workflow_status get_required_workflow get_by_id gets or_raise check
      update_status save flush_row audit_workflow_status_transitioned append_audit_log create_log
      modify ◌>>=◌
  transition_workflow_status-succeeds law w state to_status actor reason s here h allowed =
      rw (here, validate_transition-allowed w.status to_status allowed)
        (rw
          (store_state_stored law (stamped P s.flushes (record w { status = to_status })) state _
            (record { dumped = h.dumped; typed = h.typed; bounded = h.bounded }))
          (
            refl,
            written_twice s.flushes (record w { status = to_status }) _ w s.workflows here refl,
            refl,
            refl,
            refl,
            refl,
          ))

  -- A transition of an unknown workflow says so and changes nothing in the session.
  pub transition_workflow_status-unknown :
      (i : Uuid) (to_status : WorkflowStatus) (actor : Actor) (reason : Option String) (s : Session)
      → find_workflow i s.workflows ≡ none
      → transition_workflow_status P i to_status actor reason s ≡ (err (workflow_not_found i), s)
  unfolding transition_workflow_status get_required_workflow get_by_id gets or_raise check ◌>>=◌
  transition_workflow_status-unknown i to_status actor reason s missing = rw missing

  -- A transition that the table does not allow raises the error that names both statuses and every
  -- status that is allowed, and changes nothing in the session.
  pub transition_workflow_status-refused :
      (i : Uuid) (w : Workflow) (to_status : WorkflowStatus) (actor : Actor)
      (reason : Option String) (s : Session)
      → find_workflow i s.workflows ≡ some w
      → can_transition w.status to_status ≡ false
      → transition_workflow_status P i to_status actor reason s ≡ (
        err (
            invalid_transition (record {
              from_status = w.status;
              to_status = to_status;
              allowed_statuses = get_allowed_transitions w.status;
            })),
        s,
      )
  unfolding transition_workflow_status get_required_workflow get_by_id gets or_raise check ◌>>=◌
  transition_workflow_status-refused i w to_status actor reason s here blocked =
      rw (here, validate_transition-refused w.status to_status blocked)
