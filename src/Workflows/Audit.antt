-- ===== src/Workflows/Audit.antt =====
-- backend/app/workflows/audit.py: the audit records of the workflow services.
use graduation_project.Prelude.{String, Option, none, some, List, [], ◌∷◌}
use graduation_project.Json.{Json, Dict, Items, nil, cons, text, array, null, empty, entry, put}
use graduation_project.Lifecycle.{WorkflowStatus, created, status_value}
use graduation_project.Schema.{Uuid}
use graduation_project.Store.{Platform, Action}
use graduation_project.Store.Actions.{create_log}

-- `None` or the text itself, as a JSON value.
abbrev pub optional_text : Option String → Json
optional_text none = null
optional_text (some s) = text s

-- `if value is not None: payload[key] = value`
abbrev pub put_present : String → Option String → Dict → Dict
put_present k none d = d
put_present k (some v) d = put k (text v) d

abbrev pub texts : List String → Items
texts [] = nil
texts (s ∷ ss) = cons (text s) (texts ss)

abbrev pub user_if : Option Uuid → Option String
user_if none = none
user_if (some i) = some "user"

unfoldable pub append_audit_log :
    String → Uuid → Option String → Option Uuid → String → Uuid → Dict → Action Unit
append_audit_log action workflow_id actor_type actor_id resource_type resource_id payload =
    create_log (record {
      action = action;
      workflow_id = some workflow_id;
      actor_type = actor_type;
      actor_id = actor_id;
      resource_type = some resource_type;
      resource_id = some resource_id;
      payload = payload;
    })

module _ (P : Platform) where
  unfoldable pub audit_workflow_created : Uuid → String → Option String → Option Uuid → Action Unit
  audit_workflow_created i workflow_type domain actor =
      append_audit_log "workflow.created" i (user_if actor) actor "workflow" i (
        entry "workflow_id" (text (P.uuid_str i)) (
          entry "workflow_type" (text workflow_type) (
            entry "domain" (optional_text domain)
              (entry "status" (text (status_value created)) empty))))

  unfoldable pub audit_workflow_status_transitioned :
      Uuid
      → WorkflowStatus
      → WorkflowStatus
      → Option String
      → Option Uuid
      → Option String
      → Action Unit
  audit_workflow_status_transitioned i old_status new_status actor_type actor_id reason =
      append_audit_log "workflow.status_transitioned" i actor_type actor_id "workflow" i (
        put_present "reason" reason (
          entry "workflow_id" (text (P.uuid_str i)) (
            entry "old_status" (text (status_value old_status))
              (entry "new_status" (text (status_value new_status)) empty))))

  unfoldable pub audit_workflow_state_updated :
      Uuid
      → WorkflowStatus
      → Option String
      → Option Uuid
      → Option String
      → List String
      → Action Unit
  audit_workflow_state_updated i status actor_type actor_id reason updated_fields =
      append_audit_log "workflow.state_updated" i actor_type actor_id "workflow" i (
        put_present "reason" reason (
          entry "workflow_id" (text (P.uuid_str i)) (
            entry "status" (text (status_value status))
              (entry "updated_fields" (array (texts updated_fields)) empty))))

  unfoldable pub audit_workflow_event_appended :
      Uuid → Uuid → String → Option String → Option Uuid → Option String → Action Unit
  audit_workflow_event_appended i event_id event_type actor_type actor_id agent_name =
      append_audit_log "workflow.event_appended" i actor_type actor_id "workflow_event" event_id (
        put_present "agent_name" agent_name (
          entry "workflow_id" (text (P.uuid_str i)) (
            entry "event_id" (text (P.uuid_str event_id))
              (entry "event_type" (text event_type) empty))))
