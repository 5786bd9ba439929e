-- ===== src/Workflows/Events.antt =====
-- backend/app/workflows/events.py: `WorkflowEventService`. The publisher is outside: it is given by
-- whether its call for an event returns, or `none` where the service has none.
use graduation_project.Prelude.{ℕ, Bool, Option, none, some, List, [], ◌∷◌, ◌++◌, if◌then◌else◌}
use graduation_project.Schema.{Uuid, WorkflowEventCreate, WorkflowEvent}
use graduation_project.Store.{
  Platform, Action, workflow_not_found, event_not_found, pure, gets, or_raise, modify, ◌>>=◌, ◌>>◌,
}
use graduation_project.Store.Actions.{get_by_id, get_event_by_id, flush, create_event}
use graduation_project.Store.Query.{list_by_workflow_id}
use graduation_project.Workflows.Audit.{audit_workflow_event_appended}

abbrev pub Publisher : Type 0
Publisher = Option (WorkflowEvent → Bool)

-- `_publish_event`: what the publisher raises is logged and dropped.
unfoldable pub publish_event : Publisher → WorkflowEvent → Action Unit
publish_event none e = pure tt
publish_event (some returns) e =
    modify (λ s. if returns e then record s { published = s.published ++ e ∷ [] } else s)

module _ (P : Platform) (publisher : Publisher) where
  unfoldable pub append_event : WorkflowEventCreate → Action WorkflowEvent
  append_event event = do
    found ← get_by_id event.workflow_id
    or_raise (workflow_not_found event.workflow_id) found
    e ← create_event P event
    flush P
    audit_workflow_event_appended P e.content.workflow_id e.event_id e.content.event_type
        e.content.actor_type e.content.actor_id e.content.agent_name
    flush P
    publish_event publisher e
    pure e

unfoldable pub list_events_for_workflow : Uuid → ℕ → ℕ → Action (List WorkflowEvent)
list_events_for_workflow i limit offset = do
  found ← get_by_id i
  or_raise (workflow_not_found i) found
  gets (λ s. list_by_workflow_id i limit offset s.events)

unfoldable pub get_event : Uuid → Action (Option WorkflowEvent)
unfolding get_event_by_id
get_event i = get_event_by_id i

unfoldable pub get_required_event : Uuid → Action WorkflowEvent
get_required_event i = do found ← get_event i; or_raise (event_not_found i) found
