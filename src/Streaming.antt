-- ===== src/Streaming.antt =====
-- The messages of the event stream (backend/app/streaming/schemas.py). `lower` is Python's
-- `str.lower`. An opaque value that is a UUID or a datetime is sent as `standard` writes it, and
-- any other as the start of its `str`.

pub mod Safety
mod Examples
use Prim.Native.String
use package.text.Mathlib.Text.{find?}
use graduation_project.Prelude.{
  ℕ, zero, suc, ◌+◌, String, Bool, true, false, ◌&&◌, ◌||◌, not, Option, none, some, List, [], ◌∷◌,
  any, leb, ◌==◌, if◌then◌else◌,
}
use graduation_project.Json.{
  Json, Items, Dict, null, bool, number, text, array, object, opaque, nil, cons, empty, entry, get,
  put,
}
use graduation_project.Schema.{Uuid, Time, EventStatus, WorkflowEvent}
use graduation_project.Runtime.Texts.{take_text}

abbrev pub max_payload_depth : ℕ
max_payload_depth = 4

abbrev pub max_payload_items : ℕ
max_payload_items = 50

abbrev pub max_list_items : ℕ
max_list_items = 20

abbrev pub max_string_length : ℕ
max_string_length = 500

abbrev pub sensitive_key_parts : List String
sensitive_key_parts =
    "api_key" ∷ "authorization" ∷ "credential" ∷ "password" ∷ "secret" ∷ "token" ∷ []

abbrev pub internal_payload_keys : List String
internal_payload_keys =
    "_sa_instance_state" ∷ "created_by_id" ∷ "deleted_at" ∷ "hashed_password" ∷ "id"
    ∷ "request_payload" ∷ "state_payload" ∷ "workflow" ∷ []

-- The field `message_type` is left out: every message has the one type that there is.
pub record WorkflowEventStreamMessage : Type 0 where
  pub workflow_id : Uuid
  pub event_id : Uuid
  pub event_type : String
  pub status : Option EventStatus
  pub stage : Option String
  pub message : Option String
  pub created_at : Time
  pub emitted_at : Time
  pub sequence : Option ℕ
  pub payload : Dict

-- `part in key`
abbrev occurs_in : String → String → Bool
occurs_in key part = elim (find? key part) [ none ↦ false | some _ ↦ true ]

-- `Field(min_length=1, max_length=n)`
abbrev sized : ℕ → String → Bool
sized n s = leb 1 (String.count s) && leb (String.count s) n

abbrev sized_if_any : ℕ → Option String → Bool
sized_if_any n none = true
sized_if_any n (some s) = sized n s

module _ (lower : String → String) where
  unfoldable pub is_unsafe_payload_key : String → Bool
  is_unsafe_payload_key key =
      any (λ k. k == lower key) internal_payload_keys
      || take_text 4 (lower key) == "_sa_"
      || any (occurs_in (lower key)) sensitive_key_parts

  abbrev pub keep : String → Json → Dict → Dict
  keep key v sanitized = if is_unsafe_payload_key key then sanitized else put key v sanitized

module _ (lower : String → String) (standard : ℕ → Option String) (str : ℕ → String) where
  abbrev pub standard_or_str : Option String → ℕ → Json
  standard_or_str none n = text (take_text max_string_length (str n))
  standard_or_str (some s) n = text s

  -- `_sanitize_value`, the loop of `_sanitize_mapping` with the turns that are left, and the one of
  -- `_sanitize_sequence`
  unfoldable mutual
    pub sanitize_value : Json → ℕ → Json
    sanitize_value null depth = null
    sanitize_value (bool b) depth = bool b
    sanitize_value (number n) depth = number n
    sanitize_value (text s) depth = text (take_text max_string_length s)
    sanitize_value (opaque n) depth = standard_or_str (standard n) n
    sanitize_value (object d) depth =
        let sanitized = sanitize_entries d max_payload_items depth empty in
        object (if leb max_payload_depth depth then empty else sanitized)
    sanitize_value (array xs) depth =
        let sanitized = sanitize_sequence xs max_list_items depth in
        array (if leb max_payload_depth depth then nil else sanitized)

    pub sanitize_entries : Dict → ℕ → ℕ → Dict → Dict
    sanitize_entries empty left depth sanitized = sanitized
    sanitize_entries (entry k v d) zero depth sanitized = sanitized
    sanitize_entries (entry k v d) (suc left) depth sanitized =
        sanitize_entries d left depth
          (keep lower (take_text max_string_length k) (sanitize_value v (depth + 1)) sanitized)

    pub sanitize_sequence : Items → ℕ → ℕ → Items
    sanitize_sequence nil left depth = nil
    sanitize_sequence (cons x xs) zero depth = nil
    sanitize_sequence (cons x xs) (suc left) depth =
        cons (sanitize_value x (depth + 1)) (sanitize_sequence xs left depth)

  unfoldable pub sanitize_mapping : Dict → ℕ → Dict
  sanitize_mapping d depth =
      if leb max_payload_depth depth
      then empty
      else sanitize_entries d max_payload_items depth empty

  unfoldable pub sanitize_stream_payload : Dict → Dict
  sanitize_stream_payload d = sanitize_mapping d 0

  abbrev stage_text : Option Json → Option String → Option String
  stage_text (some (text s)) agent = if s == "" then agent else some (take_text max_string_length s)
  stage_text _ agent = agent

  unfoldable pub stage_from_event : WorkflowEvent → Option String
  stage_from_event e = stage_text (get "stage" e.content.payload) e.content.agent_name

  abbrev pub is_valid_message : WorkflowEventStreamMessage → Bool
  is_valid_message m =
      sized 100 m.event_type && (sized_if_any 100 m.stage && sized_if_any 500 m.message)

  abbrev pub stream_message : WorkflowEvent → Option ℕ → Time → WorkflowEventStreamMessage
  stream_message e sequence emitted_at = record {
    workflow_id = e.content.workflow_id;
    event_id = e.event_id;
    event_type = e.content.event_type;
    status = e.content.status;
    stage = stage_from_event e;
    message = e.content.message;
    created_at = e.created_at;
    emitted_at = emitted_at;
    sequence = sequence;
    payload = sanitize_stream_payload e.content.payload;
  }

  -- `none` is the ValidationError of pydantic. `emitted_at` is the time given or the clock's.
  unfoldable pub workflow_event_to_stream_message :
      WorkflowEvent → Option ℕ → Time → Option WorkflowEventStreamMessage
  workflow_event_to_stream_message e sequence emitted_at =
      let m = stream_message e sequence emitted_at in if is_valid_message m then some m else none
