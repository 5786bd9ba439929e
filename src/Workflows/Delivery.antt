-- ===== src/Workflows/Delivery.antt =====
-- What appending an event writes and hands on (backend/app/workflows/events.py).
use graduation_project.Prelude.{
  ◌≡◌, refl, sym, ap, map, ◌∙◌, inl, inr, none, some, List, [], ◌∷◌, ◌++◌, ◌+◌, if◌then◌else◌,
  Bool-cases,
}
use mathlib.Core.List.{append-nil}
use graduation_project.Schema.{WorkflowEventCreate, WorkflowEvent, Workflow}
use graduation_project.Store.{
  Platform, Session, ok, err, workflow_not_found, or_raise, gets, modify, pure, ◌>>=◌,
  find_workflow,
}
use graduation_project.Store.Actions.{
  get_by_id, create_event, draw_uuid, read_clock, add_event, flush, create_log, stamped,
}
use graduation_project.Store.Rows.{find-stamped}
use mathlib.Core.Option
use graduation_project.Workflows.Audit.{append_audit_log, audit_workflow_event_appended}
use graduation_project.Workflows.Events.{Publisher, publish_event, append_event}

module _ (P : Platform) (event : WorkflowEventCreate) (s : Session) where
  -- The event that is written: a fresh key and the present time.
  abbrev pub appended : WorkflowEvent
  appended = record {
    event_id = P.uuid4 s.drawn;
    content = event;
    created_at = P.now s.readings;
    updated_at = P.now s.readings;
  }

  abbrev pub delivered : Publisher → List WorkflowEvent
  delivered none = []
  delivered (some returns) = if returns appended then appended ∷ [] else []

  flushed_twice :
      (w : Workflow)
      → find_workflow event.workflow_id s.workflows ≡ some w
      → find_workflow event.workflow_id
          (map (stamped P (s.flushes + 1)) (map (stamped P s.flushes) s.workflows))
        ≡ some (stamped P (s.flushes + 1) (stamped P s.flushes w))
  flushed_twice w here =
      find-stamped P (s.flushes + 1) event.workflow_id _
      ∙ ap (Option.map (stamped P (s.flushes + 1))) (
          find-stamped P s.flushes event.workflow_id s.workflows
          ∙ ap (Option.map (stamped P s.flushes)) here)

  -- An event of a known workflow is returned as written and stands last among the events,
  -- whatever the publisher does. It is handed on exactly if there is a publisher whose call
  -- returns.
  pub append_event_lem :
      (publisher : Publisher) (w : Workflow)
      → find_workflow event.workflow_id s.workflows ≡ some w
      → let (r, t) = append_event P publisher event s in
        (r ≡ ok appended)
        × (t.events ≡ s.events ++ appended ∷ [])
        × (t.published ≡ s.published ++ delivered publisher)
  unfolding append_event get_by_id gets or_raise create_event draw_uuid read_clock add_event flush
      audit_workflow_event_appended append_audit_log create_log modify publish_event pure ◌>>=◌
  append_event_lem none w here = rw here (refl, refl, sym (append-nil s.published))
  append_event_lem (some returns) w here = elim (Bool-cases (returns appended)) [
    | inl handed ↦ rw (here, handed) (refl, refl, refl)
    | inr lost ↦ rw (here, lost) (refl, refl, sym (append-nil s.published))
  ]

  -- An event of an unknown workflow is refused, and nothing is written or handed on.
  pub append_event_unknown :
      (publisher : Publisher)
      → find_workflow event.workflow_id s.workflows ≡ none
      → append_event P publisher event s ≡ (err (workflow_not_found event.workflow_id), s)
  unfolding append_event get_by_id gets or_raise ◌>>=◌
  append_event_unknown publisher missing = rw missing

  -- The row of a workflow after an event of it: flushed twice, otherwise as it was.
  pub append_event-row :
      (publisher : Publisher) (w : Workflow)
      → find_workflow event.workflow_id s.workflows ≡ some w
      → find_workflow event.workflow_id (append_event P publisher event s).1.workflows
        ≡ some (stamped P (s.flushes + 1) (stamped P s.flushes w))
  unfolding append_event get_by_id gets or_raise create_event draw_uuid read_clock add_event flush
      audit_workflow_event_appended append_audit_log create_log modify publish_event pure ◌>>=◌
  append_event-row none w here = rw here (flushed_twice w here)
  append_event-row (some returns) w here = elim (Bool-cases (returns appended)) [
    | inl handed ↦ rw (here, handed) (flushed_twice w here)
    | inr lost ↦ rw (here, lost) (flushed_twice w here)
  ]
