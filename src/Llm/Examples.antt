-- ===== src/Llm/Examples.antt =====
-- The model service with a provider that is busy at first, one that refuses, and one that breaks.
use graduation_project.Prelude.{
  ℕ, zero, suc, ◌+◌, ◌≤◌, ◌<◌, ◌≡◌, ◌≢◌, inl, refl, true, false, none, some, [], ◌∷◌, ◌++◌, arith,
  length,
}
use graduation_project.Json.{bool, text, empty, put}
use graduation_project.Llm.Contracts.{
  LlmProvider, fake, groq, rate_limit, authentication, unknown, category_value, user, stop,
  text_format, LlmChatRequest, LlmChatResponse, LlmProviderError, LlmSettings,
}
use graduation_project.Llm.Retry.{is_retryable_llm_error}
use graduation_project.Llm.Service.{
  Outcome, replied, failed, crashed, LlmCall, Clients, complete, complete_with_retries,
  fallback_call,
}
use graduation_project.Llm.Attempts.{
  repeat, is_retryable, complete_with_retries-settles, complete-length,
}
use graduation_project.Llm.Fallback.{complete-fails_fast, complete-fallback, complete-wraps}

abbrev settings : LlmSettings
settings = record {
  provider = groq;
  model = "m";
  runtime_enabled = true;
  timeout_seconds = 30;
  max_retries = 2;
  fallback_enabled = true;
  fallback_provider = fake;
  groq_api_key = "k";
  groq_model = "";
  openrouter_api_key = "";
  openrouter_model = "";
  ollama_base_url = "http://localhost:11434";
  ollama_model = "";
  gemini_api_key = "";
  gemini_model = "";
}

abbrev request : LlmChatRequest
request = record {
  messages = record { role = user; content = "hello"; name = none; metadata = empty } ∷ [];
  provider = none;
  model = none;
  temperature = "0.2";
  max_tokens = none;
  response_format = text_format;
  structured_json = false;
  request_id = none;
  timeout_seconds = none;
  metadata = empty;
}

abbrev response : LlmChatResponse
response = record {
  provider = fake;
  model = "m";
  content = "hello";
  structured_json = none;
  structured_metadata = none;
  finish_reason = stop;
  usage = none;
  request_id = none;
  metadata = empty;
}

abbrev busy : LlmProviderError
busy = record {
  message = "slow down";
  category = rate_limit;
  provider = some groq;
  request_id = none;
  details = empty;
}

abbrev refused : LlmProviderError
refused = record busy { category = authentication }

-- The first two calls fail for the rate, and then the provider answers.
abbrev busy_at_first : ℕ → LlmCall → Outcome
busy_at_first zero call = failed busy
busy_at_first (suc zero) call = failed busy
busy_at_first (suc (suc n)) call = replied response

abbrev recovering : Clients
recovering = record { answer = busy_at_first; create = λ p. none }

abbrev only_fake : LlmProvider → Outcome
only_fake fake = replied response
only_fake p = failed busy

abbrev overloaded : Clients
overloaded = record { answer = λ n call. only_fake call.provider; create = λ p. none }

abbrev refusing : Clients
refusing = record { answer = λ n call. failed refused; create = λ p. none }

-- Busy at the first call, and then without an answer.
abbrev break_late : ℕ → Outcome
break_late zero = failed busy
break_late (suc n) = crashed "boom"

abbrev breaking : Clients
breaking = record { answer = λ n call. break_late n; create = λ p. none }

abbrev call : LlmCall
call = record { provider = groq; request = request }

two_fail : (j : ℕ) → j < 2 → is_retryable (busy_at_first (0 + j) call) ≡ true
unfolding is_retryable_llm_error
two_fail zero h = refl
two_fail (suc zero) h = refl
two_fail (suc (suc j)) h = absurd (omega arith)

complete_with_retries-settles_example :
    complete_with_retries recovering settings call [] ≡ (replied response, repeat 3 call)
complete_with_retries-settles_example =
    complete_with_retries-settles recovering settings call [] 2 (omega arith) two_fail (inl refl)

complete-length_example : length (complete overloaded settings request []).1 ≤ 0 + 2 + 2
complete-length_example = complete-length overloaded settings request []

refusal_final : is_retryable_llm_error authentication ≡ false
unfolding is_retryable_llm_error
refusal_final = refl

complete-fails_fast_example : complete refusing settings request [] ≡ (failed refused, call ∷ [])
complete-fails_fast_example =
    complete-fails_fast refusing settings request [] refused refl refl refusal_final

busy_again : is_retryable_llm_error busy.category ≡ true
unfolding is_retryable_llm_error
busy_again = refl

another_provider : fake ≢ groq
another_provider = λ h. ground (arith, h)

complete-fallback_example : complete overloaded settings request [] ≡ (
  replied (record response {
    metadata = put "fallback_error_category" (text (category_value busy.category)) (
        put "fallback_from_provider"
          (text "groq")
          (put "fallback_used" (bool true) response.metadata));
  }),
  ([] ++ repeat 3 call) ++ fallback_call overloaded settings request ∷ [],
)
complete-fallback_example =
    complete-fallback overloaded settings request [] busy response refl refl refl another_provider
      (λ j less. busy_again) refl busy_again refl

one_fails : (j : ℕ) → j < 1 → is_retryable (breaking.answer (0 + j) call) ≡ true
unfolding is_retryable_llm_error
one_fails zero h = refl
one_fails (suc j) h = absurd (omega arith)

complete-wraps_example : complete breaking settings request [] ≡ (
  failed (record {
    message = "llm service encountered an unexpected provider error";
    category = unknown;
    provider = some groq;
    request_id = none;
    details = empty;
  }),
  repeat 2 call,
)
complete-wraps_example =
    complete-wraps breaking settings request [] "boom" 1 refl (omega arith) one_fails refl
