-- ===== src/Workflows/Contract/Writes.antt =====
-- What the creation of a workflow and an update of its state return and write.
use graduation_project.Prelude.{
  ◌+◌, String, ◌≡◌, refl, ◌∙◌, true, Option, none, some, ap, arith, eq_iff, eq_refl, ◌≢◌, ◌⊎◌,
}
use mathlib.Core.Option
use graduation_project.Json.{empty}
use graduation_project.Lifecycle.{created}
use graduation_project.Lifecycle.Table.{same_status_iff}
use graduation_project.Schema.{
  Uuid, WorkflowType, procurement_quotation, type_value, WorkflowStateCreate, WorkflowState,
  Workflow, within_bounds,
}
use graduation_project.Store.{
  Platform, Session, ok, err, state_mismatch, or_raise, check, gets, modify, ◌>>=◌, find_workflow,
}
use graduation_project.Store.Actions.{
  get_by_id, create_log, update_state_payload, save, flush_row, stamped, create_row, draw_uuid,
  read_clock, add_workflow,
}
use graduation_project.Store.Rows.{find-set_self, find-stamped}
use graduation_project.Workflows.Audit.{
  append_audit_log, audit_workflow_created, audit_workflow_state_updated,
}
use graduation_project.Workflows.Service.{
  Actor, workflow_to_state, get_required_workflow, store_state, create_workflow,
  update_workflow_state, mismatch,
}
use graduation_project.Workflows.Contract.{
  blank_state, with_columns, ReadsBack, IsStored, to_state_stored,
}

pub one_type : (t : WorkflowType) → type_value t ≡ type_value procurement_quotation
one_type procurement_quotation = refl

module _ (P : Platform) where
  -- The row of a new workflow before its first flush.
  abbrev pub new_row : Session → WorkflowStateCreate → Option Uuid → Workflow
  new_row s state creator = record {
    id = P.uuid4 s.drawn;
    workflow_type = type_value state.workflow_type;
    domain = state.domain;
    status = created;
    created_by_id = creator;
    request_payload = state.request;
    state_payload = empty;
    created_at = P.now s.readings;
    updated_at = P.now s.readings;
    deleted_at = none;
  }

  matching :
      (state : WorkflowState) (w : Workflow)
      → state.workflow_id ≡ P.uuid_str w.id
      → state.status ≡ w.status
      → mismatch P state w ≡ none
  matching state w same_id same =
      rw (same_id, eq_refl (P.uuid_str w.id), same, (same_status_iff w.status w.status).1 refl)

  mismatching :
      (state : WorkflowState) (w : Workflow)
      → (state.workflow_id ≢ P.uuid_str w.id) ⊎ (state.status ≢ w.status)
      → mismatch P state w ≡ some state_mismatch
  mismatching state w wrong =
      ground
        (arith, eq_iff state.workflow_id (P.uuid_str w.id), same_status_iff state.status w.status)

  -- Where dumps read back and the new state is within the bounds of the schema, a new workflow is
  -- returned in CREATED status with the domain and the request that were asked for, and otherwise
  -- blank: the metadata of the request is not kept.
  pub create_workflow-returns :
      ReadsBack P
      → (state : WorkflowStateCreate) (creator : Option Uuid) (s : Session)
      → within_bounds (with_columns P (new_row s state creator) blank_state) ≡ true
      → let first : Workflow = stamped P s.flushes (new_row s state creator) in
        (create_workflow P state creator s).0
        ≡ ok (with_columns P (stamped P (s.flushes + 1) first) blank_state)
  unfolding create_workflow create_row draw_uuid read_clock add_workflow flush_row
      audit_workflow_created append_audit_log create_log modify store_state workflow_to_state
      or_raise update_state_payload save ◌>>=◌
  create_workflow-returns law state creator s bounded =
      rw
        (law.reads_blank (stamped P s.flushes (new_row s state creator))
          (one_type state.workflow_type) bounded)
        (rw (
          law.reads_dump
            (with_columns P (stamped P s.flushes (new_row s state creator)) blank_state)
            (stamped P (s.flushes + 1) (stamped P s.flushes (new_row s state creator)))
            (one_type state.workflow_type) bounded))

  -- Where dumps read back, an update of a row under its own id and status, with a state within
  -- the bounds of the schema, writes the dump of the state and returns the state under the row's
  -- own columns: status, domain, type and request stay the row's. It appends no event.
  pub update_workflow_state-succeeds :
      ReadsBack P
      → (w : Workflow) (state : WorkflowState) (actor : Actor) (reason : Option String)
        (s : Session)
      → find_workflow w.id s.workflows ≡ some w
      → state.workflow_id ≡ P.uuid_str w.id
      → state.status ≡ w.status
      → IsStored P (record w { state_payload = P.dump_state state }) state
      → let (r, t) = update_workflow_state P w.id state actor reason s in
        let final : Workflow =
          stamped P s.flushes (record w { state_payload = P.dump_state state }) in
        (r ≡ ok (with_columns P final state))
        × (find_workflow w.id t.workflows ≡ some final)
        × (t.events ≡ s.events)
  unfolding update_workflow_state get_required_workflow get_by_id gets or_raise check
      update_state_payload save flush_row audit_workflow_state_updated append_audit_log create_log
      modify ◌>>=◌
  update_workflow_state-succeeds law w state actor reason s here same_id same h =
      rw (here, matching state w same_id same)
        (rw
          (to_state_stored P law
            (stamped P s.flushes (record w { state_payload = P.dump_state state })) state _
            (record { dumped = refl; typed = h.typed; bounded = h.bounded }))
          (
            refl,
            find-stamped P s.flushes w.id _
                ∙ ap (Option.map (stamped P s.flushes)) (
                    find-set_self (record w { state_payload = P.dump_state state }) w s.workflows
                      here),
            refl,
          ))

  -- An update of a row under another id or another status is refused and changes nothing.
  pub update_workflow_state-mismatch :
      (w : Workflow) (state : WorkflowState) (actor : Actor) (reason : Option String) (s : Session)
      → find_workflow w.id s.workflows ≡ some w
      → (state.workflow_id ≢ P.uuid_str w.id) ⊎ (state.status ≢ w.status)
      → update_workflow_state P w.id state actor reason s ≡ (err state_mismatch, s)
  unfolding update_workflow_state get_required_workflow get_by_id gets or_raise check ◌>>=◌
  update_workflow_state-mismatch w state actor reason s here wrong =
      rw (here, mismatching state w wrong)
