-- ===== src/Llm/Settings.antt =====
-- The methods of `LLMSettings` (backend/app/llm/settings.py).
use graduation_project.Prelude.{
  ◌≡◌, ◌≢◌, ◌↔◌, ◌⊎◌, inl, inr, refl, String, Bool, true, false, Option, none, some, [], ◌∷◌, any,
  ◌==◌, eq_iff, ap, Bool-cases, if◌then◌else◌,
}
use graduation_project.Json.{empty}
use graduation_project.Llm.Contracts.{
  LlmProvider, fake, groq, openrouter, ollama, gemini, same_provider, configuration,
  LlmProviderError, LlmSettings,
}

-- `a or b` on texts
abbrev or_text : String → String → String
or_text a b = if a == "" then b else a

abbrev model_entry : LlmSettings → LlmProvider → String
model_entry settings groq = settings.groq_model
model_entry settings openrouter = settings.openrouter_model
model_entry settings ollama = settings.ollama_model
model_entry settings gemini = settings.gemini_model
model_entry settings fake = settings.model

unfoldable pub model_for_provider : LlmSettings → LlmProvider → String
model_for_provider settings provider = or_text (model_entry settings provider) settings.model

unfoldable pub selected_model : LlmSettings → String
selected_model settings = or_text (model_entry settings settings.provider) settings.model

unfoldable pub requires_api_key : LlmSettings → Bool
requires_api_key settings = any (same_provider settings.provider) (groq ∷ openrouter ∷ gemini ∷ [])

-- `required_keys.get`
abbrev pub required_key : LlmSettings → LlmProvider → Option String
required_key settings groq = some settings.groq_api_key
required_key settings openrouter = some settings.openrouter_api_key
required_key settings gemini = some settings.gemini_api_key
required_key settings fake = none
required_key settings ollama = none

-- `f"{self.provider.value} provider requires an API key"`
abbrev key_message : LlmProvider → String
key_message fake = "fake provider requires an API key"
key_message groq = "groq provider requires an API key"
key_message openrouter = "openrouter provider requires an API key"
key_message ollama = "ollama provider requires an API key"
key_message gemini = "gemini provider requires an API key"

abbrev key_problem : LlmProvider → Option String → Option LlmProviderError
key_problem provider none = none
key_problem provider (some key) =
    if key == ""
    then some (record {
      message = key_message provider;
      category = configuration;
      provider = some provider;
      request_id = none;
      details = empty;
    })
    else none

-- `none` is the silent return; `some` is what is raised.
unfoldable pub require_provider_configuration : LlmSettings → Option LlmProviderError
require_provider_configuration settings =
    key_problem settings.provider (required_key settings settings.provider)

by_key :
    (provider : LlmProvider) (key : String)
    → any (same_provider provider) (groq ∷ openrouter ∷ gemini ∷ []) ≡ true
    → (key_problem provider (some key) ≡ none) ↔ (
        (any (same_provider provider) (groq ∷ openrouter ∷ gemini ∷ []) ≡ false)
        ⊎ (some key ≢ some ""))
by_key provider key needs = (
  λ h. inr (λ e. let blank : key ≡ "" = cc e in cc (rw ((eq_iff key "").1 blank) at h)),
  λ h. elim (Bool-cases (key == "")) [
    | inr given ↦ rw given refl
    | inl blank ↦ absurd (elim h [
      | inl needless ↦ cc (needs, needless)
      | inr other ↦ other (ap some ((eq_iff key "").0 blank))
    ])
  ],
)

by_provider :
    (settings : LlmSettings) (provider : LlmProvider)
    → (key_problem provider (required_key settings provider) ≡ none) ↔ (
        (any (same_provider provider) (groq ∷ openrouter ∷ gemini ∷ []) ≡ false)
        ⊎ (required_key settings provider ≢ some ""))
by_provider settings fake = (λ h. inl refl, λ h. refl)
by_provider settings ollama = (λ h. inl refl, λ h. refl)
by_provider settings groq = by_key groq settings.groq_api_key refl
by_provider settings openrouter = by_key openrouter settings.openrouter_api_key refl
by_provider settings gemini = by_key gemini settings.gemini_api_key refl

-- The configuration passes exactly if the selected provider needs no API key or the key that is
-- looked up for it is not empty.
pub require_provider_configuration_iff :
    (settings : LlmSettings)
    → (require_provider_configuration settings ≡ none)
      ↔ ((requires_api_key settings ≡ false) ⊎ (required_key settings settings.provider ≢ some ""))
unfolding require_provider_configuration requires_api_key
require_provider_configuration_iff settings = by_provider settings settings.provider
