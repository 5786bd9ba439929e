-- ===== src/Workflows/Creation.antt =====
-- What the creation of a workflow writes (`create_workflow` of backend/app/workflows/service.py).
use graduation_project.Prelude.{◌+◌, Option, some}
use mathlib.Core.Option
use graduation_project.Json.{text, empty, entry}
use graduation_project.Lifecycle.{created, status_value}
use graduation_project.Schema.{Uuid, type_value, WorkflowStateCreate, Workflow, AuditLog}
use graduation_project.Store.{Platform, Session}
use graduation_project.Store.Actions.{stamped}
use graduation_project.Workflows.Audit.{optional_text, user_if}
use graduation_project.Workflows.Contract.{blank_state, with_columns}
use graduation_project.Workflows.Contract.Writes.{new_row}

module _ (P : Platform) (s : Session) (state : WorkflowStateCreate) (creator : Option Uuid) where
  -- The new row after both flushes: its payload is the dump of what it first reads as.
  abbrev pub created_row : Workflow
  created_row =
      let first : Workflow = stamped P s.flushes (new_row P s state creator) in
      stamped P (s.flushes + 1)
        (record first { state_payload = P.dump_state (with_columns P first blank_state) })

  abbrev pub creation_log : AuditLog
  creation_log = record {
    action = "workflow.created";
    workflow_id = some (P.uuid4 s.drawn);
    actor_type = user_if creator;
    actor_id = creator;
    resource_type = some "workflow";
    resource_id = some (P.uuid4 s.drawn);
    payload = entry "workflow_id" (text (P.uuid_str (P.uuid4 s.drawn))) (
        entry "workflow_type" (text (type_value state.workflow_type)) (
          entry "domain" (optional_text state.domain)
            (entry "status" (text (status_value created)) empty)));
  }
