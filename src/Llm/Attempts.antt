-- ===== src/Llm/Attempts.antt =====
-- How often the service calls a provider, and with what it ends (backend/app/llm/service.py).
use graduation_project.Prelude.{
  ℕ, zero, suc, ◌+◌, ◌≤◌, ◌<◌, ◌≡◌, sym, ap, ◌∙◌, ◌⊎◌, inl, inr, refl, Bool, true, false, not, ◌||◌,
  Option, none, some, List, [], ◌∷◌, ◌++◌, length, length-append, nat_eq, arith, Bool-cases,
}
use native.Mathlib.Numerals.{add-one}
use mathlib.Core.List.{append_assoc}
use graduation_project.Llm.Contracts.{LlmProvider, LlmChatRequest, LlmProviderError, LlmSettings}
use graduation_project.Llm.Retry.{is_retryable_llm_error}
use graduation_project.Llm.Service.{
  Outcome, replied, failed, crashed, LlmCall, Clients, Calls, handled, attempt,
  complete_with_retries, complete_with_fallback, settle, complete, should_use_fallback,
  fallback_call, with_client, chosen_provider,
}

-- Whether an outcome is a failure that may be retried.
abbrev pub is_retryable : Outcome → Bool
is_retryable (replied response) = false
is_retryable (crashed message) = false
is_retryable (failed e) = is_retryable_llm_error e.category

abbrev pub repeat : ℕ → LlmCall → List LlmCall
repeat zero call = []
repeat (suc n) call = call ∷ repeat n call

module _ (C : Clients) where
  handled_stops :
      (n : ℕ) (again : LlmProviderError → Calls) (made : List LlmCall) (o : Outcome)
      → (n ≡ 0) ⊎ (is_retryable o ≡ false)
      → handled C n again made o ≡ (o, made)
  unfolding handled
  handled_stops n again made (replied response) h = refl
  handled_stops n again made (crashed message) h = refl
  handled_stops n again made (failed e) (inl last) = rw last refl
  handled_stops n again made (failed e) (inr final) = ground arith

  length-handled :
      (n m : ℕ) (again : LlmProviderError → Calls) (made : List LlmCall) (o : Outcome)
      → ((e : LlmProviderError) → length (again e).1 ≤ m)
      → length made ≤ m
      → length (handled C n again made o).1 ≤ m
  unfolding handled
  length-handled n m again made (replied response) h k = k
  length-handled n m again made (crashed message) h k = k
  length-handled n m again made (failed e) h k =
      elim (Bool-cases (nat_eq n 0 || not (is_retryable_llm_error e.category))) [
        | inl stops ↦ rw stops k
        | inr goes ↦ rw goes (h e)
      ]

  length-attempt :
      (n : ℕ) (last_error : Option LlmProviderError) (call : LlmCall) (made : List LlmCall)
      → length (attempt C n last_error call made).1 ≤ length made + n
  unfolding attempt
  length-attempt zero last_error call made = omega arith
  length-attempt (suc n) last_error call made =
      let one : length (made ++ call ∷ []) ≡ length made + 1 = length-append made (call ∷ []) in
      length-handled n (length made + suc n) _ (made ++ call ∷ []) _
        (λ e. omega (arith, one, length-attempt n (some e) call (made ++ call ∷ [])))
        (omega (arith, one))

  retryable_failure :
      (o : Outcome)
      → is_retryable o ≡ true
      → (e : LlmProviderError) × (o ≡ failed e) × (is_retryable_llm_error e.category ≡ true)
  retryable_failure (replied response) h = cc
  retryable_failure (crashed message) h = cc
  retryable_failure (failed e) h = (e, refl, h)

  handled_goes :
      (n : ℕ) (again : LlmProviderError → Calls) (made : List LlmCall) (e : LlmProviderError)
      → is_retryable_llm_error e.category ≡ true
      → handled C (suc n) again made (failed e) ≡ again e
  unfolding handled
  handled_goes n again made e h = ground arith

  first_answer :
      (call : LlmCall) (made : List LlmCall) (answers : ℕ → Outcome)
      → ((j : ℕ) → answers j ≡ C.answer (length made + j) call)
      → C.answer (length made) call ≡ answers 0
  first_answer call made answers same = ap (λ i. C.answer i call) (omega arith) ∙ sym (same 0)

  settles :
      (k n : ℕ) (last_error : Option LlmProviderError) (call : LlmCall) (made : List LlmCall)
      (answers : ℕ → Outcome)
      → ((j : ℕ) → answers j ≡ C.answer (length made + j) call)
      → k ≤ n
      → ((j : ℕ) → j < k → is_retryable (answers j) ≡ true)
      → (k ≡ n) ⊎ (is_retryable (answers k) ≡ false)
      → attempt C (suc n) last_error call made ≡ (answers k, made ++ repeat (suc k) call)
  unfolding attempt
  settles zero n last_error call made answers same le before ends =
      rw (first_answer call made answers same) (
        handled_stops n _ (made ++ call ∷ []) (answers 0)
          (elim ends [ inl e ↦ inl (sym e) | inr final ↦ inr final ]))
  settles (suc k) zero last_error call made answers same le before ends = absurd (omega arith)
  settles (suc k) (suc n) last_error call made answers same le before ends =
      let (e, fails, again) = retryable_failure (answers 0) (before 0 (omega arith)) in
      let longer : List LlmCall = made ++ call ∷ [] in
      rw (first_answer call made answers same ∙ fails) (
        handled_goes n _ longer e again
        ∙ settles k n (some e) call longer (λ j. answers (suc j))
            (λ j.
              same (suc j)
              ∙ ap (λ i. C.answer i call) (omega (arith, length-append made (call ∷ []))))
            (omega arith) (λ j less. before (suc j) (omega arith))
            (elim ends [ inl e ↦ inl (omega arith) | inr final ↦ inr final ])
        ∙ ap (λ l. (answers (suc k), l)) (append_assoc made (call ∷ []) (repeat (suc k) call)))

  -- Attempts that fail with retryable errors are repeated until one does not or the retries are
  -- used up: what that attempt gives is the result, and no further call is made.
  pub complete_with_retries-settles :
      (settings : LlmSettings) (call : LlmCall) (made : List LlmCall) (k : ℕ)
      → k ≤ settings.max_retries
      → ((j : ℕ) → j < k → is_retryable (C.answer (length made + j) call) ≡ true)
      → (k ≡ settings.max_retries) ⊎ (is_retryable (C.answer (length made + k) call) ≡ false)
      → complete_with_retries C settings call made
        ≡ (C.answer (length made + k) call, made ++ repeat (suc k) call)
  unfolding complete_with_retries
  complete_with_retries-settles settings call made k le before ends =
      rw (add-one settings.max_retries) (
        settles k settings.max_retries none call made (λ j. C.answer (length made + j) call)
          (λ j. refl) le before ends)

  -- The calls of a client that may not be created.
  length-client :
      (m : ℕ) (made : List LlmCall) (o : Option Outcome) (calls : Calls)
      → length made ≤ m
      → length calls.1 ≤ m
      → length (with_client made o calls).1 ≤ m
  length-client m made none calls h k = k
  length-client m made (some problem) calls h k = h

  length-fallback :
      (settings : LlmSettings) (request : LlmChatRequest) (provider : LlmProvider)
      (e : LlmProviderError) (made : List LlmCall)
      → length (complete_with_fallback C settings request provider e made).1 ≤ length made + 1
  unfolding complete_with_fallback
  length-fallback settings request provider e made =
      length-client (length made + 1) made (C.create settings.fallback_provider) _ (omega arith)
        (omega (arith, length-append made (fallback_call C settings request ∷ [])))

  length-settle :
      (settings : LlmSettings) (request : LlmChatRequest) (provider : LlmProvider) (o : Outcome)
      (made : List LlmCall)
      → length (settle C settings request provider (o, made)).1 ≤ length made + 1
  unfolding settle complete_with_fallback
  length-settle settings request provider (replied response) made = omega arith
  length-settle settings request provider (crashed message) made = omega arith
  length-settle settings request provider (failed e) made =
      elim (Bool-cases (should_use_fallback C settings e provider)) [
        | inl uses ↦ rw uses (length-fallback settings request provider e made)
        | inr ends ↦ rw ends (omega arith)
      ]

  -- However the providers answer, one completion makes at most one call more than its retries
  -- allow and one to the fallback: max_retries + 2 in all.
  pub complete-length :
      (settings : LlmSettings) (request : LlmChatRequest) (made : List LlmCall)
      → length (complete C settings request made).1 ≤ length made + settings.max_retries + 2
  unfolding complete complete_with_retries
  complete-length settings request made =
      let provider = chosen_provider settings request in
      let call : LlmCall = record { provider = provider; request = request } in
      let tried : Calls = attempt C (settings.max_retries + 1) none call made in
      length-client (length made + settings.max_retries + 2) made (C.create provider)
        (settle C settings request provider tried) (omega arith)
        (omega (
          arith,
          length-settle settings request provider tried.0 tried.1,
          length-attempt (settings.max_retries + 1) none call made,
        ))
