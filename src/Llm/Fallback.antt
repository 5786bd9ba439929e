-- ===== src/Llm/Fallback.antt =====
-- When the service turns to the fallback provider, and what the caller sees
-- (backend/app/llm/service.py).
use graduation_project.Prelude.{
  ℕ, zero, suc, ◌+◌, ◌≤◌, ◌<◌, ◌≡◌, ◌≢◌, ◌↔◌, inl, inr, refl, ap, ◌∙◌, true, false, none, some,
  List, [], ◌∷◌, ◌++◌, String, length, length-append, arith,
}
use graduation_project.Json.{bool, text, empty, put}
use graduation_project.Llm.Contracts.{
  LlmProvider, same_provider, provider_value, unknown, category_value, LlmChatRequest,
  LlmChatResponse, LlmProviderError, LlmSettings,
}
use graduation_project.Llm.Retry.{is_retryable_llm_error, is_fallback_eligible_llm_error}
use graduation_project.Llm.Service.{
  replied, failed, crashed, LlmCall, Clients, Calls, complete_with_retries, complete_with_fallback,
  settle, complete, should_use_fallback, fallback_call, with_client, chosen_provider,
}
use graduation_project.Llm.Attempts.{is_retryable, repeat, complete_with_retries-settles}

length-repeat : (n : ℕ) (call : LlmCall) → length (repeat n call) ≡ n
length-repeat zero call = refl
length-repeat (suc n) call = rw (length-repeat n call) refl

same_provider_iff : (a b : LlmProvider) → (same_provider a b ≡ true) ↔ (a ≡ b)
same_provider_iff a b = (λ h. ground arith, λ h. ground arith)

module _ (C : Clients) where
  -- The fallback is used exactly if it is enabled, is another provider than the one that failed,
  -- and the failure could have been retried.
  pub should_use_fallback_iff :
      (settings : LlmSettings) (failure : LlmProviderError) (failed_provider : LlmProvider)
      → (should_use_fallback C settings failure failed_provider ≡ true) ↔ (
          (settings.fallback_enabled ≡ true)
          × (settings.fallback_provider ≢ failed_provider)
          × (is_retryable_llm_error failure.category ≡ true))
  unfolding should_use_fallback is_retryable_llm_error is_fallback_eligible_llm_error
  should_use_fallback_iff settings failure failed_provider = (
    λ h. ground (arith, same_provider_iff settings.fallback_provider failed_provider),
    λ h. ground (arith, same_provider_iff settings.fallback_provider failed_provider),
  )

  not_used :
      (settings : LlmSettings) (failure : LlmProviderError) (failed_provider : LlmProvider)
      → is_retryable_llm_error failure.category ≡ false
      → should_use_fallback C settings failure failed_provider ≡ false
  unfolding should_use_fallback is_retryable_llm_error is_fallback_eligible_llm_error
  not_used settings failure failed_provider final = ground arith

  module _ (settings : LlmSettings) (request : LlmChatRequest) (made : List LlmCall) where
    abbrev pub primary_call : LlmCall
    primary_call = record { provider = chosen_provider settings request; request = request }

    settled :
        C.create (chosen_provider settings request) ≡ none
        → (tried : Calls) → complete_with_retries C settings primary_call made ≡ tried
        → complete C settings request made
          ≡ settle C settings request (chosen_provider settings request) tried
    unfolding complete
    settled created tried result =
        ap
          (λ o. with_client made o (
            settle C settings request (chosen_provider settings request)
              (complete_with_retries C settings primary_call made)))
          created
        ∙ ap (settle C settings request (chosen_provider settings request)) result

    -- With a client for the chosen provider, a failure that may not be retried reaches the caller
    -- after one call, whatever the retry and fallback settings are.
    pub complete-fails_fast :
        (e : LlmProviderError)
        → C.create (chosen_provider settings request) ≡ none
        → C.answer (length made) primary_call ≡ failed e
        → is_retryable_llm_error e.category ≡ false
        → complete C settings request made ≡ (failed e, made ++ primary_call ∷ [])
    unfolding settle
    complete-fails_fast e created answer final =
        let first : C.answer (length made + 0) primary_call ≡ failed e =
          ap (λ i. C.answer i primary_call) (omega arith) ∙ answer in
        settled created (failed e, made ++ primary_call ∷ [])
          (complete_with_retries-settles C settings primary_call made 0 (omega arith)
              (λ j less. absurd (omega arith)) (inr (ap is_retryable first ∙ final))
            ∙ ap (λ o. (o, made ++ primary_call ∷ [])) first)
        ∙ rw (not_used settings e (chosen_provider settings request) final) refl

    -- The primary provider is asked as often as the retries allow.
    exhausted_retries :
        (e : LlmProviderError)
        → ((j : ℕ)
            → j < settings.max_retries
            → is_retryable (C.answer (length made + j) primary_call) ≡ true)
        → C.answer (length made + settings.max_retries) primary_call ≡ failed e
        → complete_with_retries C settings primary_call made
          ≡ (failed e, made ++ repeat (suc settings.max_retries) primary_call)
    exhausted_retries e before last =
        complete_with_retries-settles C settings primary_call made settings.max_retries
          (omega arith) before (inl refl)
        ∙ ap (λ o. (o, made ++ repeat (suc settings.max_retries) primary_call)) last

    length-tried :
        length (made ++ repeat (suc settings.max_retries) primary_call)
        ≡ length made + suc settings.max_retries
    length-tried =
        length-append made (repeat (suc settings.max_retries) primary_call)
        ∙ ap (λ n. length made + n) (length-repeat (suc settings.max_retries) primary_call)

    -- With clients for both providers and the fallback enabled for another provider than the chosen
    -- one: where the chosen provider answers max_retries + 1 calls with failures that may be
    -- retried, and the fallback then answers with a response, the caller gets this response after
    -- max_retries + 2 calls. Its metadata then tells that the fallback was used, for which
    -- provider, and what the category of the last failure was.
    pub complete-fallback :
        (e : LlmProviderError) (response : LlmChatResponse)
        → C.create (chosen_provider settings request) ≡ none
        → C.create settings.fallback_provider ≡ none
        → settings.fallback_enabled ≡ true
        → settings.fallback_provider ≢ chosen_provider settings request
        → ((j : ℕ)
            → j < settings.max_retries
            → is_retryable (C.answer (length made + j) primary_call) ≡ true)
        → C.answer (length made + settings.max_retries) primary_call ≡ failed e
        → is_retryable_llm_error e.category ≡ true
        → C.answer (length made + suc settings.max_retries) (fallback_call C settings request)
          ≡ replied response
        → complete C settings request made ≡ (
          replied (record response {
            metadata = put "fallback_error_category" (text (category_value e.category)) (
                put "fallback_from_provider"
                  (text (provider_value (chosen_provider settings request)))
                  (put "fallback_used" (bool true) response.metadata));
          }),
          (made ++ repeat (suc settings.max_retries) primary_call)
              ++ fallback_call C settings request ∷ [],
        )
    unfolding settle complete_with_fallback
    complete-fallback e response created ready enabled other before last again answer =
        settled created (failed e, made ++ repeat (suc settings.max_retries) primary_call)
          (exhausted_retries e before last)
        ∙ rw
            (
              (should_use_fallback_iff settings e (chosen_provider settings request)).1
                  (enabled, other, again),
              ready,
              length-tried,
              answer,
            )
            refl

    -- With a client for the chosen provider: where it answers some calls, no more than the retries
    -- allow, with failures that may be retried and then raises an exception that is not the
    -- service's own, the caller gets the service's own error in the unknown category at once,
    -- whatever the fallback settings are.
    pub complete-wraps :
        (message : String) (k : ℕ)
        → C.create (chosen_provider settings request) ≡ none
        → k ≤ settings.max_retries
        → ((j : ℕ) → j < k → is_retryable (C.answer (length made + j) primary_call) ≡ true)
        → C.answer (length made + k) primary_call ≡ crashed message
        → complete C settings request made ≡ (
          failed (record {
            message = "llm service encountered an unexpected provider error";
            category = unknown;
            provider = some (chosen_provider settings request);
            request_id = request.request_id;
            details = empty;
          }),
          made ++ repeat (suc k) primary_call,
        )
    unfolding settle
    complete-wraps message k created le before crash =
        settled created (crashed message, made ++ repeat (suc k) primary_call)
          (complete_with_retries-settles C settings primary_call made k le before
              (inr (ap is_retryable crash))
            ∙ ap (λ o. (o, made ++ repeat (suc k) primary_call)) crash)
