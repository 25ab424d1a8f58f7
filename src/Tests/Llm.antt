-- ===== src/Tests/Llm.antt =====
-- Runs of src/llm, with a JSON of one object.
use property_management_lead.Common.{
  ◌≡◌, refl, true, none, some, List, [], ◌∷◌, ◌++◌, keep, all, strip, starts_with, Text, codes,
  text_eq, ◌==◌, if◌then◌else◌, contains,
}
use property_management_lead.Common.Dict.{lookup}
use property_management_lead.Common.Json.{Json, subscript}
use property_management_lead.Common.Result.{ok, raised, json_decode_error}
use property_management_lead.Common.Value.{
  Value, str, object, array, nil, cons, entries, Fields, end, field,
}
use property_management_lead.Llm.Fences.{fenced}
use property_management_lead.Llm.Providers.{
  LlmProvider, anthropic, openai_compatible, connection, received, anthropic_text,
  generate_structured_json,
}
use property_management_lead.Llm.Providers.Answers.{carried, generate_structured_json-fenced}
use property_management_lead.Llm.Factory.{
  LlmSettings, get_active_llm_client, first_by_provider, client_of,
}
use property_management_lead.Llm.Factory.Active.{IsFirst, get_active_llm_client-IsFirst}
use property_management_lead.Tests.{ascii}

abbrev answer : Fields
answer = field (codes "a") (str (codes "b")) end

abbrev pub json : Json
json = record {
  dumps = λ value. codes "{...}";
  loads = λ s.
      if s == codes "{...}"
      then ok (object answer)
      else raised json_decode_error (codes "Expecting value");
  dict_of = λ items. ok [];
}

abbrev provider : LlmProvider
provider = anthropic (connection (codes "sk") (codes "claude") (codes "https://api.anthropic.com"))

abbrev wrapped : Text
wrapped = codes " " ++ (fenced true (codes "{...}") ++ [])

abbrev response : Value
response = object (
    field (codes "content")
      (array (
        cons
          (object
            (field (codes "type") (str (codes "text")) (field (codes "text") (str wrapped) end)))
          nil))
      end)

generate_structured_json-fenced_example :
    generate_structured_json json ascii.is_space
      (λ request. received (ok response))
      provider
      (codes "system")
      (codes "user")
      []
    ≡ ok (entries answer)
unfolding carried anthropic_text subscript lookup text_eq all strip starts_with entries
generate_structured_json-fenced_example =
    generate_structured_json-fenced json ascii.is_space (λ request. received (ok response)) provider
      (codes "system") (codes "user") response true (codes " ") [] (codes "{...}") answer
      (λ request. refl) refl refl refl refl (refl, refl) refl

abbrev table : List LlmSettings
table =
    record {
      provider = some (codes "openai");
      api_key = some (codes "sk-1");
      base_url = none;
      selected_model = codes "gpt-4o";
      is_active = true;
    }
    ∷ []

abbrev client : LlmProvider
client =
    openai_compatible
      (connection (codes "sk-1") (codes "gpt-4o") (codes "https://api.openai.com/v1"))

get_active_llm_client-IsFirst_example :
    (row : LlmSettings) × IsFirst row (keep (λ (r : LlmSettings). r.is_active) table)
    × (client_of row ≡ ok client)
unfolding get_active_llm_client first_by_provider keep client_of contains text_eq
get_active_llm_client-IsFirst_example = get_active_llm_client-IsFirst table refl
