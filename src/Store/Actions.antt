-- ===== src/Store/Actions.antt =====
-- The repository and session calls, each an action.
use graduation_project.Prelude.{ℕ, ◌+◌, String, Option, none, [], ◌∷◌, ◌++◌, map}
use graduation_project.Json.{Dict}
use graduation_project.Lifecycle.{WorkflowStatus}
use graduation_project.Schema.{Uuid, Time, WorkflowEventCreate, WorkflowEvent, Workflow, AuditLog}
use graduation_project.Store.{
  Platform, Action, ok, gets, modify, ◌>>=◌, find_workflow, set_workflow, find_event,
}

-- `WorkflowRepository.get_by_id`
unfoldable pub get_by_id : Uuid → Action (Option Workflow)
unfolding gets
get_by_id i = gets (λ s. find_workflow i s.workflows)

-- A write to attributes of a row that the session holds.
unfoldable pub save : Workflow → Action Workflow
save w s = (ok w, record s { workflows = set_workflow w s.workflows })

-- `WorkflowRepository.update_status`
unfoldable pub update_status : Workflow → WorkflowStatus → Action Workflow
unfolding save
update_status w st = save (record w { status = st })

-- `WorkflowRepository.update_state_payload`
unfoldable pub update_state_payload : Workflow → Dict → Action Workflow
unfolding save
update_state_payload w p = save (record w { state_payload = p })

-- `WorkflowEventRepository.get_by_id`
unfoldable pub get_event_by_id : Uuid → Action (Option WorkflowEvent)
unfolding gets
get_event_by_id i = gets (λ s. find_event i s.events)

-- `AuditLogRepository.create_log`
unfoldable pub create_log : AuditLog → Action Unit
unfolding modify
create_log log = modify (λ s. record s { audit_logs = s.audit_logs ++ log ∷ [] })

-- `session.add`
unfoldable pub add_workflow : Workflow → Action Workflow
add_workflow w s = (ok w, record s { workflows = s.workflows ++ w ∷ [] })

unfoldable pub add_event : WorkflowEvent → Action WorkflowEvent
add_event e s = (ok e, record s { events = s.events ++ e ∷ [] })

module _ (P : Platform) where
  unfoldable pub draw_uuid : Action Uuid
  draw_uuid s = (ok (P.uuid4 s.drawn), record s { drawn = s.drawn + 1 })

  unfoldable pub read_clock : Action Time
  read_clock s = (ok (P.now s.readings), record s { readings = s.readings + 1 })

  abbrev pub stamped : ℕ → Workflow → Workflow
  stamped n w = record w { updated_at = P.stamp n w.id w.updated_at }

  -- `session.flush()`: every row may get a new `updated_at`.
  unfoldable pub flush : Action Unit
  unfolding modify
  flush =
      modify
        (λ s. record s { workflows = map (stamped s.flushes) s.workflows; flushes = s.flushes + 1 })

  -- A flush, and the row as the object in hand shows it afterwards.
  unfoldable pub flush_row : Workflow → Action Workflow
  flush_row w s = (
    ok (stamped s.flushes w),
    record s { workflows = map (stamped s.flushes) s.workflows; flushes = s.flushes + 1 },
  )

  -- `WorkflowRepository.create`; the key that the flush would draw is drawn here.
  unfoldable pub create_row :
      String → Option String → WorkflowStatus → Option Uuid → Dict → Dict → Action Workflow
  unfolding draw_uuid read_clock add_workflow ◌>>=◌
  create_row workflow_type domain status created_by_id request_payload state_payload = do
    i ← draw_uuid
    t ← read_clock
    add_workflow (record {
      id = i;
      workflow_type = workflow_type;
      domain = domain;
      status = status;
      created_by_id = created_by_id;
      request_payload = request_payload;
      state_payload = state_payload;
      created_at = t;
      updated_at = t;
      deleted_at = none;
    })

  -- `WorkflowEventRepository.create_event`
  unfoldable pub create_event : WorkflowEventCreate → Action WorkflowEvent
  unfolding draw_uuid read_clock add_event ◌>>=◌
  create_event content = do
    i ← draw_uuid
    t ← read_clock
    add_event (record { event_id = i; content = content; created_at = t; updated_at = t })
