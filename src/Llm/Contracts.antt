-- ===== src/Llm/Contracts.antt =====
-- backend/app/llm/contracts.py, errors.py and settings.py. A float is kept by its numeral.
use graduation_project.Prelude.{ℕ, String, Bool, Option, List, nat_eq}
use graduation_project.Json.{Dict}

pub data LlmProvider : Type 0 where
  fake groq openrouter ollama gemini : LlmProvider

abbrev provider_position : LlmProvider → ℕ
provider_position fake = 0
provider_position groq = 1
provider_position openrouter = 2
provider_position ollama = 3
provider_position gemini = 4

abbrev pub same_provider : LlmProvider → LlmProvider → Bool
same_provider a b = nat_eq (provider_position a) (provider_position b)

abbrev pub provider_value : LlmProvider → String
provider_value fake = "fake"
provider_value groq = "groq"
provider_value openrouter = "openrouter"
provider_value ollama = "ollama"
provider_value gemini = "gemini"

pub data LlmMessageRole : Type 0 where
  system user assistant : LlmMessageRole

pub data LlmResponseFormat : Type 0 where
  text_format json_object : LlmResponseFormat

pub data LlmFinishReason : Type 0 where
  stop length content_filter tool_calls error unknown_reason : LlmFinishReason

pub data LlmErrorCategory : Type 0 where
  configuration authentication rate_limit timeout unavailable : LlmErrorCategory
  invalid_request invalid_response safety cancellation unknown : LlmErrorCategory

abbrev category_position : LlmErrorCategory → ℕ
category_position configuration = 0
category_position authentication = 1
category_position rate_limit = 2
category_position timeout = 3
category_position unavailable = 4
category_position invalid_request = 5
category_position invalid_response = 6
category_position safety = 7
category_position cancellation = 8
category_position unknown = 9

abbrev pub same_category : LlmErrorCategory → LlmErrorCategory → Bool
same_category a b = nat_eq (category_position a) (category_position b)

abbrev pub category_value : LlmErrorCategory → String
category_value configuration = "configuration"
category_value authentication = "authentication"
category_value rate_limit = "rate_limit"
category_value timeout = "timeout"
category_value unavailable = "unavailable"
category_value invalid_request = "invalid_request"
category_value invalid_response = "invalid_response"
category_value safety = "safety"
category_value cancellation = "cancellation"
category_value unknown = "unknown"

pub record LlmChatMessage : Type 0 where
  pub role : LlmMessageRole
  pub content : String
  pub name : Option String
  pub metadata : Dict

pub record LlmUsage : Type 0 where
  pub prompt_tokens : Option ℕ
  pub completion_tokens : Option ℕ
  pub total_tokens : Option ℕ
  pub estimated_cost : Option String
  pub currency : Option String

pub record LlmStructuredResponseMetadata : Type 0 where
  pub schema_name : String
  pub schema_version : Option String
  pub validated : Bool

pub record LlmChatRequest : Type 0 where
  pub messages : List LlmChatMessage
  pub provider : Option LlmProvider
  pub model : Option String
  pub temperature : String
  pub max_tokens : Option ℕ
  pub response_format : LlmResponseFormat
  pub structured_json : Bool
  pub request_id : Option String
  pub timeout_seconds : Option ℕ
  pub metadata : Dict

pub record LlmChatResponse : Type 0 where
  pub provider : LlmProvider
  pub model : String
  pub content : String
  pub structured_json : Option Dict
  pub structured_metadata : Option LlmStructuredResponseMetadata
  pub finish_reason : LlmFinishReason
  pub usage : Option LlmUsage
  pub request_id : Option String
  pub metadata : Dict

-- `LLMProviderError`, with the attributes that it is raised with.
pub record LlmProviderError : Type 0 where
  pub message : String
  pub category : LlmErrorCategory
  pub provider : Option LlmProvider
  pub request_id : Option String
  pub details : Dict

pub record LlmSettings : Type 0 where
  pub provider : LlmProvider
  pub model : String
  pub runtime_enabled : Bool
  pub timeout_seconds : ℕ
  pub max_retries : ℕ
  pub fallback_enabled : Bool
  pub fallback_provider : LlmProvider
  pub groq_api_key : String
  pub groq_model : String
  pub openrouter_api_key : String
  pub openrouter_model : String
  pub ollama_base_url : String
  pub ollama_model : String
  pub gemini_api_key : String
  pub gemini_model : String
