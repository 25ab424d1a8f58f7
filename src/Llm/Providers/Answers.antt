-- ===== src/Llm/Providers/Answers.antt =====
-- What src/llm/anthropic_provider.py and src/llm/openai_compatible.py make of a good answer.
use property_management_lead.Common.{
  ℕ, ◌≡◌, refl, ap, ◌∙◌, Bool, true, false, [], ◌++◌, all, strip, Text, text_eq,
}
use property_management_lead.Common.Result.{Result, ok}
use property_management_lead.Common.Value.{Value, str, object, Fields, entries, truthy, get}
use property_management_lead.Common.Dict.{lookup}
use property_management_lead.Common.Json.{Json, dict_value}
use property_management_lead.Llm.Fences.{
  fenced, IsApart, strip_json_fences, strip_json_fences-fenced,
}
use property_management_lead.Llm.Providers.{
  LlmProvider, anthropic, openai_compatible, Request, Reply, received, anthropic_text, openai_text,
  anthropic_data, openai_data, openai_payload, is_json_supported, read_text, parsed,
  generate_structured_json,
}

-- The text that an answer carries.
unfoldable pub carried : LlmProvider → Value → Result Value
carried (anthropic self) response = anthropic_text response
carried (openai_compatible self) response = openai_text response

read_text_object :
    (json : Json) (is_space : ℕ → Bool) (text : Text) (fields : Fields)
    → json.loads (strip_json_fences is_space text) ≡ ok (object fields)
    → read_text json is_space (str text) ≡ ok (entries fields)
unfolding read_text parsed dict_value
read_text_object json is_space text fields loaded = rw (read_text, loaded) refl

answered :
    (json : Json) (is_space : ℕ → Bool) (post : Request → Reply) (provider : LlmProvider)
    (system_prompt user_prompt : Text) (response text : Value)
    → ((request : Request) → post request ≡ received (ok response))
    → carried provider response ≡ ok text
    → generate_structured_json json is_space post provider system_prompt user_prompt []
      ≡ read_text json is_space text
unfolding generate_structured_json carried anthropic_data openai_data openai_payload
    is_json_supported truthy get lookup read_text
answered json is_space post (anthropic self) system_prompt user_prompt response text posted e =
    simp (posted, e)
answered json is_space post (openai_compatible self) system_prompt user_prompt response text posted
      e =
    simp (posted, e)

-- Each provider, called without options on an answer that carries a text in a fence, a plain one or
-- one that names JSON, with any white space around the fence, returns the object that JSON reads
-- from the text inside, where that starts with no backtick, nor with `json` behind a plain fence,
-- and a backtick is no white space.
pub generate_structured_json-fenced :
    (json : Json) (is_space : ℕ → Bool) (post : Request → Reply) (provider : LlmProvider)
    (system_prompt user_prompt : Text) (response : Value) (is_named : Bool) (ws ws' body : Text)
    (fields : Fields)
    → ((request : Request) → post request ≡ received (ok response))
    → carried provider response ≡ ok (str (ws ++ (fenced is_named body ++ ws')))
    → all is_space ws ≡ true
    → all is_space ws' ≡ true
    → is_space 96 ≡ false
    → IsApart is_named body
    → json.loads (strip is_space body) ≡ ok (object fields)
    → generate_structured_json json is_space post provider system_prompt user_prompt []
      ≡ ok (entries fields)
generate_structured_json-fenced json is_space post provider system_prompt user_prompt response
      is_named ws ws' body fields posted carries space space' backtick apart loaded =
    answered json is_space post provider system_prompt user_prompt response _ posted carries
    ∙ read_text_object json is_space (ws ++ (fenced is_named body ++ ws')) fields (
        ap json.loads
          (strip_json_fences-fenced is_space is_named ws ws' body space space' backtick apart)
        ∙ loaded)
