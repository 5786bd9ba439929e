-- ===== src/Llm/Retry.antt =====
-- backend/app/llm/retry.py: which failures may be retried.
use graduation_project.Prelude.{◌≡◌, ◌≢◌, ◌↔◌, Bool, true, false, List, [], ◌∷◌, any, arith}
use graduation_project.Llm.Contracts.{
  LlmErrorCategory, configuration, authentication, rate_limit, timeout, unavailable,
  invalid_request, invalid_response, safety, cancellation, unknown, same_category,
}

abbrev pub retryable_error_categories : List LlmErrorCategory
retryable_error_categories = timeout ∷ unavailable ∷ rate_limit ∷ []

abbrev pub non_retryable_error_categories : List LlmErrorCategory
non_retryable_error_categories =
    configuration ∷ authentication ∷ invalid_response ∷ safety ∷ invalid_request ∷ cancellation ∷ []

unfoldable pub is_retryable_llm_error : LlmErrorCategory → Bool
is_retryable_llm_error category = any (same_category category) retryable_error_categories

unfoldable pub is_fallback_eligible_llm_error : LlmErrorCategory → Bool
is_fallback_eligible_llm_error category = any (same_category category) retryable_error_categories

-- A failure may be retried exactly if its category is not listed as non-retryable, except that the
-- unknown category, which is in neither list, is not retried.
pub retryable_iff :
    (category : LlmErrorCategory)
    → (is_retryable_llm_error category ≡ true) ↔ (
        (any (same_category category) non_retryable_error_categories ≡ false)
        × (category ≢ unknown))
unfolding is_retryable_llm_error
retryable_iff category = (λ h. ground arith, λ h. ground arith)
