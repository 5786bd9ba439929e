-- ===== src/Approval/Contract.antt =====
-- What the steps of a decision return and write (backend/app/approvals/service.py).
pub mod History
use graduation_project.Prelude.{
  ◌≡◌, refl, sym, ap, ◌∙◌, String, Bool, true, false, not, ◌&&◌, Option, none, some, List, [], ◌∷◌,
  ◌++◌, any, ◌+◌, arith,
}
use mathlib.Core.Option
use graduation_project.Json.{Dict}
use graduation_project.Lifecycle.{WorkflowStatus, waiting_approval, same_status, can_transition}
use graduation_project.Lifecycle.Table.{same_status_iff}
use graduation_project.Schema.{
  Uuid, Time, WorkflowState, Workflow, WorkflowEvent, WorkflowEventCreate, EventStatus,
  within_bounds, type_value, procurement_quotation,
}
use graduation_project.Schema.Approval.{
  ApprovalDecisionType, approve, reject, request_changes, ApprovalDecisionRequest, ApprovalRecord,
  ApprovalDecisionResponse, ApprovalHistoryResponse,
}
use graduation_project.Store.{
  Platform, Session, Result, ok, err, Action, or_raise, check, gets, pure, modify, ◌>>=◌,
  find_workflow,
}
use graduation_project.Store.Actions.{get_by_id, create_log, flush, stamped, draw_uuid, read_clock}
use graduation_project.Store.Rows.{find-stamped}
use graduation_project.Workflows.Audit.{append_audit_log}
use graduation_project.Workflows.Service.{
  Actor, get_workflow, transition_workflow_status, update_workflow_state,
}
use graduation_project.Workflows.Events.{Publisher, append_event}
use graduation_project.Workflows.Contract.{
  ReadsBack, IsStored, with_columns, to_state_stored, transitioned_row,
  transition_workflow_status-succeeds,
}
use graduation_project.Workflows.Contract.Writes.{update_workflow_state-succeeds}
use graduation_project.Workflows.Delivery.{append_event_lem, append_event-row, appended}
use graduation_project.Approval.Rules.{
  get_resume_allowed_after_decision, is_final_approval_decision, has_final_approval_decision,
  validate_approval_decision_allowed, get_next_status_for_decision, decision_allowed_iff,
}
use graduation_project.Approval.Roles.{can_submit_approval_decision}
use graduation_project.Approval.Payload.{
  approval_event_payload, approval_records_from_payload, build_approval_payload, closes,
  decision_event_type, event_message,
}
use graduation_project.Approval.Service.{
  User, actor_role_names, is_valid_record, decision_record, decide_status, announce,
  record_decision, status_or, submit_approval_decision, get_approval_history,
}

module _ (P : Platform) where
  -- The event of a decision.
  abbrev pub decision_event : Uuid → ApprovalRecord → User → Bool → WorkflowEventCreate
  decision_event i r actor can_resume = record {
    workflow_id = i;
    event_type = decision_event_type r.decision;
    actor_type = some "user";
    actor_id = some actor.id;
    agent_name = none;
    status = some EventStatus.completed;
    message = some (event_message r.decision);
    payload = approval_event_payload P r can_resume;
  }

module _ (P : Platform) (publisher : Publisher) where
  announced :
      (w : Workflow) (r : ApprovalRecord) (actor : User) (can_resume : Bool) (s : Session)
      → find_workflow w.id s.workflows ≡ some w
      → let (res, t) = announce P publisher w.id r actor can_resume s in
        (res ≡ ok tt)
        × (find_workflow w.id t.workflows
            ≡ some (
                stamped P
                  (append_event P publisher (decision_event P w.id r actor can_resume) s).1.flushes
                  (stamped P (s.flushes + 1) (stamped P s.flushes w))))
        × (t.events ≡ s.events ++ appended P (decision_event P w.id r actor can_resume) s ∷ [])
  unfolding announce append_audit_log create_log flush modify ◌>>=◌
  announced w r actor can_resume s here =
      let e : WorkflowEventCreate = decision_event P w.id r actor can_resume in
      let (res, events, handed) = append_event_lem P e s publisher w here in
      rw res (
        refl,
        find-stamped P _ w.id _
            ∙ ap (Option.map (stamped P _)) (append_event-row P e s publisher w here),
        events,
      )

  -- The row under an extended history, and what the session shows after the decision.
  pub recorded :
      ReadsBack P
      → (w : Workflow) (persisted : WorkflowState) (r : ApprovalRecord)
        (existing : List ApprovalRecord) (actor : User) (previous next : WorkflowStatus)
        (s : Session)
      → find_workflow w.id s.workflows ≡ some w
      → persisted.workflow_id ≡ P.uuid_str w.id
      → persisted.status ≡ w.status
      → w.workflow_type ≡ type_value procurement_quotation
      → within_bounds (with_columns P w persisted) ≡ true
      → is_valid_record r ≡ true
      → let can_resume = get_resume_allowed_after_decision next (existing ++ r ∷ []) in
        let (res, t) =
          record_decision P publisher w.id r existing actor persisted previous next s in
        (res
          ≡ ok (record {
            workflow_id = w.id;
            approval = r;
            previous_status = previous;
            next_status = next;
            can_resume = can_resume;
            resume_recommended = can_resume;
          }))
        × ((v : Workflow) × (find_workflow w.id t.workflows ≡ some v)
            × (v.status ≡ w.status)
            × IsStored P v (record persisted {
              approval = build_approval_payload P persisted.approval existing r can_resume;
            }))
        × ((e : WorkflowEvent) × (e.content ≡ decision_event P w.id r actor can_resume)
            × (t.events ≡ s.events ++ e ∷ []))
  unfolding record_decision check pure ◌>>=◌
  recorded law w persisted r existing actor previous next s here same_id same typed within valid =
      let can_resume = get_resume_allowed_after_decision next (existing ++ r ∷ []) in
      let state : WorkflowState = record persisted {
        approval = build_approval_payload P persisted.approval existing r can_resume;
      } in
      let user : Actor = record { actor_type = some "user"; actor_id = some actor.id } in
      let reason : Option String = some "Approval decision recorded." in
      let (res, row, events) =
        update_workflow_state-succeeds P law w state user reason s here same_id same
          (record { dumped = refl; typed = typed; bounded = within }) in
      let (res', row', events') =
        announced (stamped P s.flushes (record w { state_payload = P.dump_state state })) r actor
          can_resume (update_workflow_state P w.id state user reason s).1 row in
      let made : WorkflowEvent =
        appended P (decision_event P w.id r actor can_resume)
          (update_workflow_state P w.id state user reason s).1 in
      rw (valid, res)
        (rw res' (
          refl,
          (_, row', refl, record { dumped = refl; typed = typed; bounded = within }),
          (made, refl, events' ∙ ap (λ es. es ++ made ∷ []) events),
        ))
