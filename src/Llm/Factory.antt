-- ===== src/Llm/Factory.antt =====
-- src/llm/factory.py: the client of the active provider in the table `llm_settings`.
pub mod Active
use property_management_lead.Common.{
  ℕ, ◌≡◌, refl, Bool, true, false, Option, none, some, List, [], ◌∷◌, ◌++◌, ◌||◌, ◌&&◌, Text, codes,
  text_eq, ◌==◌, is_empty, contains, keep, eqb, ltb, if◌then◌else◌,
}
use property_management_lead.Common.Result.{Result, ok, raised, value_error, other_error}
use property_management_lead.Llm.Providers.{
  LlmProvider, anthropic, openai_compatible, Connection, connection,
}

-- A row of `llm_settings`: SQLite lets a primary key of texts, and its CHECK, be NULL.
pub record LlmSettings : Type 0 where
  pub provider : Option Text
  pub api_key : Option Text
  pub base_url : Option Text
  pub selected_model : Text
  pub is_active : Bool

-- The order of SQLite on texts in UTF-8, which is that of their code points.
unfoldable pub text_less : Text → Text → Bool
text_less s [] = false
text_less [] (d ∷ t) = true
text_less (c ∷ s) (d ∷ t) = ltb c d || (eqb c d && text_less s t)

-- NULL comes first.
unfoldable pub less : Option Text → Option Text → Bool
unfolding text_less
less x none = false
less none (some t) = true
less (some s) (some t) = text_less s t

-- `ORDER BY provider LIMIT 1`
unfoldable pub first_by_provider : List LlmSettings → Option LlmSettings
first_by_provider [] = none
first_by_provider (row ∷ rows) = elim (first_by_provider rows) [
  | none ↦ some row
  | some best ↦ if less best.provider row.provider then some best else some row
]

-- `value or default`
or_else : Option Text → Text → Text
or_else none default = default
or_else (some s) default = if is_empty s then default else s

-- `str(value)`
str_or_none : Option Text → Text
str_or_none none = codes "None"
str_or_none (some s) = s

abbrev openai_names : List Text
openai_names = codes "openai" ∷ codes "openpipe" ∷ codes "local_ollama" ∷ []

is_openai : Option Text → Bool
is_openai none = false
is_openai (some name) = contains openai_names name

is_anthropic : Option Text → Bool
is_anthropic none = false
is_anthropic (some name) = name == codes "anthropic"

-- The class `AnthropicProvider` has no attribute `ANTHROPIC_API_URL`.
anthropic_client : LlmSettings → Text → Text → Result LlmProvider
anthropic_client row key url =
    if is_empty key
    then raised value_error (codes "Anthropic provider selected but no API key set.")
    else if is_empty url
    then raised other_error
        (codes "type object 'AnthropicProvider' has no attribute 'ANTHROPIC_API_URL'")
    else ok (anthropic (connection key row.selected_model url))

unfoldable pub client_of : LlmSettings → Result LlmProvider
unfolding is_openai is_anthropic anthropic_client or_else str_or_none
client_of row =
    if is_anthropic row.provider
    then anthropic_client row (or_else row.api_key []) (or_else row.base_url [])
    else if is_openai row.provider
    then ok (
        openai_compatible (
          connection (or_else row.api_key (codes "sk-unused")) row.selected_model
            (or_else row.base_url (codes "https://api.openai.com/v1"))))
    else raised value_error (codes "Unknown LLM provider: " ++ str_or_none row.provider)

unfoldable pub get_active_llm_client : List LlmSettings → Result LlmProvider
get_active_llm_client table = elim (first_by_provider (keep (λ row. row.is_active) table)) [
  | none ↦
      raised value_error
        (codes "No active LLM provider configured. Please configure one in Settings.")
  | some row ↦ client_of row
]
