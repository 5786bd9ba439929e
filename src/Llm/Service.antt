-- ===== src/Llm/Service.antt =====
-- backend/app/llm/service.py: `LLMService`. The clients are outside: a call of a provider is
-- answered by its number among all calls so far, and a client may fail to be created.
use graduation_project.Prelude.{
  ℕ, zero, suc, ◌+◌, String, Bool, true, false, not, ◌||◌, Option, none, some, List, [], ◌∷◌, ◌++◌,
  length, nat_eq, if◌then◌else◌,
}
use graduation_project.Json.{bool, text, empty, entry, update}
use graduation_project.Llm.Contracts.{
  LlmProvider, same_provider, provider_value, unknown, category_value, json_object, LlmChatRequest,
  LlmChatResponse, LlmProviderError, LlmSettings,
}
use graduation_project.Llm.Retry.{is_retryable_llm_error, is_fallback_eligible_llm_error}

-- How a call ends: with a response, with the service's own exception, or with another one.
pub data Outcome : Type 0 where
  replied : LlmChatResponse → Outcome
  failed : LlmProviderError → Outcome
  crashed : String → Outcome

pub record LlmCall : Type 0 where
  pub provider : LlmProvider
  pub request : LlmChatRequest

-- `answer` is `client.complete`, by the number of the call; `create` is the client factory, which
-- answers `none` where it returns a client.
pub record Clients : Type 0 where
  pub answer : ℕ → LlmCall → Outcome
  pub create : LlmProvider → Option Outcome

-- A result together with all calls made so far.
abbrev pub Calls : Type 0
Calls = Outcome × List LlmCall

unfoldable pub complete_json_request : LlmChatRequest → LlmChatRequest
complete_json_request request = record request {
  response_format = json_object;
  structured_json = true;
}

abbrev pub chosen_provider : LlmSettings → LlmChatRequest → LlmProvider
chosen_provider settings request = elim request.provider [ none ↦ settings.provider | some p ↦ p ]

-- What the client factory raises ends the call; with a client it goes on.
abbrev pub with_client : List LlmCall → Option Outcome → Calls → Calls
with_client made (some problem) calls = (problem, made)
with_client made none calls = calls

module _ (C : Clients) where
  -- `last_error`, or the error that the end of the loop raises.
  abbrev exhausted : Option LlmProviderError → LlmCall → LlmProviderError
  exhausted (some e) call = e
  exhausted none call = record {
    message = "llm service exhausted retry attempts";
    category = unknown;
    provider = some call.provider;
    request_id = call.request.request_id;
    details = empty;
  }

  -- One turn of the loop of `_complete_with_retries`, with n attempts remaining after it.
  unfoldable pub handled : ℕ → (LlmProviderError → Calls) → List LlmCall → Outcome → Calls
  handled n again made (replied response) = (replied response, made)
  handled n again made (crashed message) = (crashed message, made)
  handled n again made (failed e) =
      if nat_eq n 0 || not (is_retryable_llm_error e.category) then (failed e, made) else again e

  unfoldable pub attempt : ℕ → Option LlmProviderError → LlmCall → List LlmCall → Calls
  attempt zero last_error call made = (failed (exhausted last_error call), made)
  attempt (suc n) last_error call made =
      handled n (λ e. attempt n (some e) call (made ++ call ∷ [])) (made ++ call ∷ [])
        (C.answer (length made) call)

  unfoldable pub complete_with_retries : LlmSettings → LlmCall → List LlmCall → Calls
  complete_with_retries settings call made = attempt (settings.max_retries + 1) none call made

  unfoldable pub should_use_fallback : LlmSettings → LlmProviderError → LlmProvider → Bool
  should_use_fallback settings failure failed_provider =
      if not settings.fallback_enabled
      then false
      else if same_provider settings.fallback_provider failed_provider
      then false
      else is_fallback_eligible_llm_error failure.category

  -- What a fallback response tells of the failure.
  abbrev pub marked : LlmProvider → LlmProviderError → Outcome → Outcome
  marked failed_provider failure (replied response) = replied (record response {
    metadata = update response.metadata (
        entry "fallback_used" (bool true) (
          entry "fallback_from_provider" (text (provider_value failed_provider))
            (entry "fallback_error_category" (text (category_value failure.category)) empty)));
  })
  marked failed_provider failure (failed e) = failed e
  marked failed_provider failure (crashed message) = crashed message

  abbrev pub fallback_call : LlmSettings → LlmChatRequest → LlmCall
  fallback_call settings request = record {
    provider = settings.fallback_provider;
    request = record request { provider = some settings.fallback_provider };
  }

  unfoldable pub complete_with_fallback :
      LlmSettings → LlmChatRequest → LlmProvider → LlmProviderError → List LlmCall → Calls
  complete_with_fallback settings request failed_provider failure made =
      with_client made (C.create settings.fallback_provider) (
        marked failed_provider failure (C.answer (length made) (fallback_call settings request)),
        made ++ fallback_call settings request ∷ [],
      )

  -- The `except` clauses of `complete`.
  unfoldable pub settle : LlmSettings → LlmChatRequest → LlmProvider → Calls → Calls
  settle settings request provider (replied response, made) = (replied response, made)
  settle settings request provider (failed e, made) =
      if should_use_fallback settings e provider
      then complete_with_fallback settings request provider e made
      else (failed e, made)
  settle settings request provider (crashed message, made) = (
    failed (record {
      message = "llm service encountered an unexpected provider error";
      category = unknown;
      provider = some provider;
      request_id = request.request_id;
      details = empty;
    }),
    made,
  )

  unfoldable pub complete : LlmSettings → LlmChatRequest → List LlmCall → Calls
  complete settings request made =
      let provider = chosen_provider settings request in
      with_client made (C.create provider) (
        settle settings request provider
          (complete_with_retries settings (record { provider = provider; request = request }) made))

  -- `complete_json`
  unfoldable pub complete_json : LlmSettings → LlmChatRequest → List LlmCall → Calls
  complete_json settings request made = complete settings (complete_json_request request) made
