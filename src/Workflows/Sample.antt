-- ===== src/Workflows/Sample.antt =====
-- A platform with concrete functions, at which the theorems of the services are applied: times are
-- written in tally marks, states and records as objects with a key per field.
pub mod Fields
use Prim.Native.String
use graduation_project.Prelude.{
  ℕ, zero, suc, ◌+◌, String, ◌≡◌, refl, ap, ◌∙◌, Bool, false, Option, none, some, List, [], ◌∷◌,
  ◌==◌, if◌then◌else◌,
}
use graduation_project.Json.{
  Json, Items, Dict, null, bool, number, text, array, object, nil, cons, empty, entry, get,
}
use graduation_project.Lifecycle.{
  WorkflowStatus, status_value, created, workflow_statuses, waiting_approval,
}
use graduation_project.Schema.{
  Time, WorkflowState, WorkflowError, Workflow, procurement_quotation, type_value, within_bounds,
}
use graduation_project.Store.{Platform, Session}
use graduation_project.Workflows.Audit.{optional_text, texts}
use graduation_project.Approval.Contract.History.{ReadsRecords}
use graduation_project.Schema.Approval.{
  ApprovalDecisionType, approve, reject, request_changes, decision_value, ApprovalRecord,
}
use graduation_project.Workflows.Contract.{blank_state, ReadsBack, IsStored}
use graduation_project.Workflows.Sample.Fields.{
  bool_at, count-tally, decision-back, decision_at, dict_at, dump_error, dump_status, dump_time,
  error-back, error_at, items_at, named, next_status-back, number_at, optional_status_at,
  optional_text-back, optional_text_at, status-back, status_at, tally, text_at, texts-back,
  texts_at, texts_in, time-back, time_at,
}

unfoldable pub dump_state : WorkflowState → Dict
dump_state s = entry "workflow_type" (text (type_value s.workflow_type)) (
    entry "domain" (optional_text s.domain) (
      entry "request" (object s.request) (
        entry "metadata" (object s.metadata) (
          entry "workflow_id" (text s.workflow_id) (
            entry "status" (text (status_value s.status)) (
              entry "customer" (object s.customer) (
                entry "items" (array s.items) (
                  entry "planner" (object s.planner) (
                    entry "retrieval" (object s.retrieval) (
                      entry "quotation" (object s.quotation) (
                        entry "compliance" (object s.compliance) (
                          entry "validation" (object s.validation) (
                            entry "approval" (object s.approval) (
                              entry "email" (object s.email) (
                                entry "current_step" (optional_text s.current_step) (
                                  entry "runtime_context" (object s.runtime_context) (
                                    entry "outputs" (object s.outputs) (
                                      entry "steps" (array s.steps) (
                                        entry "error" (dump_error s.error) (
                                          entry "retry_count" (number s.retry_count) (
                                            entry "events" (array s.events) (
                                              entry "created_at" (dump_time s.created_at) (
                                                entry "updated_at" (dump_time s.updated_at)
                                                  empty)))))))))))))))))))))))

abbrev pub read_state : Dict → WorkflowState
read_state d = record {
  workflow_type = procurement_quotation;
  domain = optional_text_at (get "domain" d);
  request = dict_at empty (get "request" d);
  metadata = dict_at blank_state.metadata (get "metadata" d);
  workflow_id = text_at (get "workflow_id" d);
  status = status_at (get "status" d);
  customer = dict_at empty (get "customer" d);
  items = items_at (get "items" d);
  planner = dict_at empty (get "planner" d);
  retrieval = dict_at empty (get "retrieval" d);
  quotation = dict_at empty (get "quotation" d);
  compliance = dict_at empty (get "compliance" d);
  validation = dict_at empty (get "validation" d);
  approval = dict_at empty (get "approval" d);
  email = dict_at empty (get "email" d);
  current_step = optional_text_at (get "current_step" d);
  runtime_context = dict_at empty (get "runtime_context" d);
  outputs = dict_at empty (get "outputs" d);
  steps = items_at (get "steps" d);
  error = error_at (get "error" d);
  retry_count = number_at (get "retry_count" d);
  events = items_at (get "events" d);
  created_at = time_at (get "created_at" d);
  updated_at = time_at (get "updated_at" d);
}

unfoldable pub validate_state : Dict → Option WorkflowState
validate_state d = let s = read_state d in if within_bounds s then some s else none

unfoldable pub dump_record : ApprovalRecord → Json
dump_record r = object (
    entry "decision_id" (number r.decision_id) (
      entry "workflow_id" (number r.workflow_id) (
        entry "decision" (text (decision_value r.decision)) (
          entry "actor_id" (number r.actor_id) (
            entry "actor_email" (optional_text r.actor_email) (
              entry "actor_roles" (array (texts r.actor_roles)) (
                entry "comment" (optional_text r.comment) (
                  entry "decided_at" (number r.decided_at) (
                    entry "previous_status" (text (status_value r.previous_status)) (
                      entry "next_status" (dump_status r.next_status) (
                        entry "request_id" (optional_text r.request_id)
                          (entry "metadata" (object r.metadata) empty))))))))))))

abbrev pub read_record : Dict → ApprovalRecord
read_record d = record {
  decision_id = number_at (get "decision_id" d);
  workflow_id = number_at (get "workflow_id" d);
  decision = decision_at (get "decision" d);
  actor_id = number_at (get "actor_id" d);
  actor_email = optional_text_at (get "actor_email" d);
  actor_roles = texts_at (get "actor_roles" d);
  comment = optional_text_at (get "comment" d);
  decided_at = number_at (get "decided_at" d);
  previous_status = status_at (get "previous_status" d);
  next_status = optional_status_at (get "next_status" d);
  request_id = optional_text_at (get "request_id" d);
  metadata = dict_at empty (get "metadata" d);
}

unfoldable pub validate_record : Json → Option ApprovalRecord
validate_record (object d) = some (read_record d)
validate_record _ = none

-- Keys are numbered from 100 on, the clock ticks once a reading, and a flush stamps its number.
abbrev pub sample : Platform
sample = record {
  uuid_str = λ i. String.◌∷◌ "#" (tally i);
  uuid4 = λ n. 100 + n;
  now = λ n. n;
  stamp = λ n i t. n;
  isoformat = tally;
  lower = λ s. s;
  dump_state = dump_state;
  validate_state = validate_state;
  dump_record = dump_record;
  validate_record = validate_record;
}

pub sample-ReadsBack : ReadsBack sample
unfolding dump_state validate_state
sample-ReadsBack = record {
  reads_dump = λ s w typed bounded.
      rw
        (
          optional_text-back w.domain,
          optional_text-back s.current_step,
          status-back w.status,
          error-back s.error,
          count-tally w.created_at,
          count-tally w.updated_at,
          bounded,
        )
        refl;
  reads_blank = λ w typed bounded.
      rw
        (
          optional_text-back w.domain,
          status-back w.status,
          count-tally w.created_at,
          count-tally w.updated_at,
          bounded,
        )
        refl;
}

record-back : (r : ApprovalRecord) → validate_record (dump_record r) ≡ some r
unfolding dump_record validate_record
record-back r =
    rw
      (
        decision-back r.decision,
        optional_text-back r.actor_email,
        texts-back r.actor_roles,
        optional_text-back r.comment,
        status-back r.previous_status,
        next_status-back r.next_status,
        optional_text-back r.request_id,
      )
      refl

pub sample-ReadsRecords : ReadsRecords sample
sample-ReadsRecords = record {
  reads_valid = λ r valid. record-back r;
  reads_again = λ j r h. record-back r;
}

-- A session with one workflow, which waits for approval.
abbrev pub waiting_state : WorkflowState
waiting_state = record blank_state {
  workflow_id = "#iiiiiii";
  status = waiting_approval;
  retry_count = 2;
}

abbrev pub waiting_row : Workflow
waiting_row = record {
  id = 7;
  workflow_type = "procurement_quotation";
  domain = some "office";
  status = waiting_approval;
  created_by_id = some 3;
  request_payload = empty;
  state_payload = sample.dump_state waiting_state;
  created_at = 1;
  updated_at = 2;
  deleted_at = none;
}

abbrev pub waiting_session : Session
waiting_session = record {
  workflows = waiting_row ∷ [];
  events = [];
  audit_logs = [];
  drawn = 0;
  readings = 5;
  flushes = 6;
  published = [];
}

pub waiting_row-IsStored : IsStored sample waiting_row waiting_state
unfolding tally
waiting_row-IsStored = record { dumped = refl; typed = refl; bounded = refl }
