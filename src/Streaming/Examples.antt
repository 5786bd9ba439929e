-- ===== src/Streaming/Examples.antt =====
-- An event with a nested secret and deep nesting on its way to the stream.
use graduation_project.Prelude.{ℕ, String, ◌≡◌, refl, true, Option, none, some}
use graduation_project.Json.{text, object, empty, entry}
use graduation_project.Schema.{WorkflowEvent}
use graduation_project.Streaming.{
  WorkflowEventStreamMessage, is_unsafe_payload_key, sanitize_value, sanitize_mapping,
  sanitize_stream_payload, stage_from_event, stream_message, workflow_event_to_stream_message,
}
use graduation_project.Streaming.Safety.{is_safe, workflow_event_to_stream_message-is_safe}

abbrev same_text : String → String
same_text s = s

abbrev no_text : ℕ → Option String
no_text n = none

abbrev dots : ℕ → String
dots n = "..."

abbrev event : WorkflowEvent
event = record {
  event_id = 2;
  content = record {
    workflow_id = 7;
    event_type = "workflow.noted";
    actor_type = none;
    actor_id = none;
    agent_name = some "planner";
    status = none;
    message = none;
    payload = entry "stage" (text "") (
        entry "inner" (object (entry "access_token" (text "x") (entry "n" (text "y") empty)))
          empty);
  };
  created_at = 1;
  updated_at = 1;
}

sanitize_stream_payload_test :
    sanitize_stream_payload same_text no_text dots event.content.payload
    ≡ entry "stage" (text "") (entry "inner" (object (entry "n" (text "y") empty)) empty)
unfolding sanitize_stream_payload sanitize_mapping sanitize_value is_unsafe_payload_key
sanitize_stream_payload_test = refl

stage_from_event_test : stage_from_event same_text no_text dots event ≡ some "planner"
unfolding stage_from_event
stage_from_event_test = refl

abbrev sent : WorkflowEventStreamMessage
sent = stream_message same_text no_text dots event (some 0) 9

passes : workflow_event_to_stream_message same_text no_text dots event (some 0) 9 ≡ some sent
unfolding workflow_event_to_stream_message stage_from_event
passes = refl

workflow_event_to_stream_message-is_safe_example :
    (is_safe same_text no_text dots (object sent.payload) 0 ≡ true)
    × (sent.event_id ≡ 2)
    × (sent.workflow_id ≡ 7)
    × (sent.sequence ≡ some 0)
workflow_event_to_stream_message-is_safe_example =
    workflow_event_to_stream_message-is_safe same_text no_text dots event (some 0) 9 sent passes
