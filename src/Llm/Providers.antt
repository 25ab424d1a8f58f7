-- ===== src/Llm/Providers.antt =====
-- src/llm/anthropic_provider.py and src/llm/openai_compatible.py: the request that each provider
-- sends, and what it makes of the answer. The HTTP client is an argument.
pub mod Answers
use property_management_lead.Common.{
  ℕ, Bool, true, false, Option, none, some, List, [], ◌∷◌, ◌++◌, strip_left, has_infix, Text, codes,
  text_eq, ◌==◌, contains, eqb, if◌then◌else◌,
}
use mathlib.Core.List.{reverse}
use mathlib.Core.Option.{bind}
use property_management_lead.Common.Dict.{Dict, lookup}
use property_management_lead.Common.Result.{
  Result, ok, raised, ◌>>=◌, Kind, json_decode_error, type_error, runtime_error, other_error,
}
use property_management_lead.Common.Value.{
  ℤ, pos, Value, null, bool, int, float, str, array, object, Items, nil, cons, Fields, end, field,
  Object, entries, get, truthy,
}
use property_management_lead.Common.Json.{
  Json, no_attribute, type_name, dict_value, subscript, first,
}
use property_management_lead.Llm.Fences.{strip_json_fences}

-- What `__init__` keeps.
pub record Connection : Type 0 where
  pub api_key : Text
  pub model : Text
  pub base_url : Text

pub data LlmProvider : Type 0 where
  anthropic openai_compatible : Connection → LlmProvider

-- `base_url.rstrip("/")`
unfoldable pub rstrip : ℕ → Text → Text
unfolding strip_left
rstrip c s = reverse (strip_left (λ d. eqb d c) (reverse s))

-- `AnthropicProvider(…)` and `OpenAICompatibleProvider(…)`
unfoldable pub connection : Text → Text → Text → Connection
unfolding rstrip
connection api_key model base_url = record {
  api_key = api_key;
  model = model;
  base_url = rstrip 47 base_url;
}

-- `client.post(url, headers=…, json=…)` under a timeout
pub record Request : Type 0 where
  pub timeout : Value
  pub url : Text
  pub headers : Dict Text Text
  pub payload : Value

-- An HTTP error (status and text), a request error, any other exception of the client, or an answer
-- of which `json()` gives a value or raises.
pub data Reply : Type 0 where
  http_status_error : Text → Text → Reply
  request_error : Text → Reply
  other_fault : Kind → Text → Reply
  received : Result Value → Reply

message : Text → Text → Fields → Fields
message role content rest =
    field (codes "role") (str role) (field (codes "content") (str content) rest)

unfoldable pub anthropic_headers : Connection → Dict Text Text
anthropic_headers self =
    (codes "x-api-key", self.api_key)
    ∷ (codes "anthropic-version", codes "2023-06-01")
    ∷ (codes "content-type", codes "application/json")
    ∷ []

unfoldable pub anthropic_payload : Connection → Text → Text → Object → Value
unfolding message
anthropic_payload self system_prompt user_prompt kwargs = object (
    field (codes "model") (str self.model) (
      field (codes "max_tokens") (get kwargs (codes "max_tokens") (int (pos 4096))) (
        field (codes "system") (str system_prompt) (
          field (codes "messages")
            (array (cons (object (message (codes "user") user_prompt end)) nil)) end))))

openai_headers : Connection → Dict Text Text
openai_headers self =
    (codes "Authorization", codes "Bearer " ++ self.api_key)
    ∷ (codes "content-type", codes "application/json")
    ∷ []

has_text : Text → Items → Bool
has_text s nil = false
has_text s (cons (str t) items) = if s == t then true else has_text s items
has_text s (cons value items) = has_text s items

has_key : Text → Fields → Bool
has_key s end = false
has_key s (field key value fields) = if s == key then true else has_key s fields

-- `s in value`
has : Text → Value → Result Bool
unfolding has_text has_key
has s (array items) = ok (has_text s items)
has s (object fields) = ok (has_key s fields)
has s (str t) = ok (has_infix t s)
has s value =
    raised type_error (codes "argument of type '" ++ (type_name value ++ codes "' is not iterable"))

-- `"json_object" in (kwargs.get("supported_response_formats") or ["json_object"])`
is_json_supported : Object → Result Bool
unfolding has
is_json_supported kwargs =
    let formats = get kwargs (codes "supported_response_formats") null in
    if truthy formats then has (codes "json_object") formats else ok true

response_format : Bool → Fields
response_format false = end
response_format true =
    field (codes "response_format") (object (field (codes "type") (str (codes "json_object")) end))
      end

unfoldable pub openai_payload : Connection → Text → Text → Object → Result Value
unfolding message is_json_supported response_format
openai_payload self system_prompt user_prompt kwargs =
    is_json_supported kwargs >>= λ json_supported. ok (
      object (
        field (codes "model") (str self.model) (
          field (codes "messages")
            (array (
              cons (object (message (codes "system") system_prompt end))
                (cons (object (message (codes "user") user_prompt end)) nil)))
            (field (codes "temperature") (get kwargs (codes "temperature") (float (codes "0.1"))) (
              field (codes "max_tokens") (get kwargs (codes "max_tokens") (int (pos 4096)))
                (response_format json_supported))))))

unfoldable pub anthropic_data : Reply → Result Value
anthropic_data (http_status_error status text) =
    raised runtime_error (codes "Anthropic API returned " ++ status)
anthropic_data (request_error text) =
    raised runtime_error (codes "Anthropic request error: " ++ text)
anthropic_data (other_fault kind text) = raised kind text
anthropic_data (received value) = value

unfoldable pub openai_data : Reply → Result Value
openai_data (http_status_error status text) =
    raised runtime_error (codes "API returned " ++ (status ++ (codes ": " ++ text)))
openai_data (request_error text) = raised runtime_error (codes "Request error: " ++ text)
openai_data (other_fault kind text) = raised kind text
openai_data (received value) = value

abbrev no_text_block {ℓ} : {A : Type ℓ} → Result A
no_text_block = raised runtime_error (codes "No text content block in Anthropic response")

-- `b.get("type") == "text"`, for a dict
is_text_block : Fields → Bool
is_text_block block = elim (lookup (codes "type") (entries block)) [
  | some (str s) ↦ s == codes "text"
  | _ ↦ false
]

-- `next(b for b in content_blocks if b.get("type") == "text")["text"]`, over a list
text_of_blocks : Items → Result Value
unfolding is_text_block no_attribute
text_of_blocks nil = no_text_block
text_of_blocks (cons (object block) items) =
    let rest = text_of_blocks items in
    if is_text_block block
    then elim (lookup (codes "text") (entries block)) [ none ↦ no_text_block | some text ↦ ok text ]
    else rest
text_of_blocks (cons value items) = no_attribute value (codes "get")

-- The same over any value: a text and a dict give texts, and the others cannot be iterated.
text_of_content : Value → Result Value
unfolding text_of_blocks no_attribute
text_of_content (array items) = text_of_blocks items
text_of_content (str (c ∷ s)) = no_attribute (str []) (codes "get")
text_of_content (object (field key value rest)) = no_attribute (str []) (codes "get")
text_of_content value = no_text_block

unfoldable pub anthropic_text : Value → Result Value
unfolding text_of_content
anthropic_text response = elim (subscript response (codes "content")) [
  | none ↦ no_text_block
  | some content ↦ text_of_content content
]

-- `data["choices"][0]["message"]["content"]`
content_of : Value → Option Value
content_of response = bind (subscript response (codes "choices")) λ choices.
    bind (first choices)
      λ choice. bind (subscript choice (codes "message")) λ reply. subscript reply (codes "content")

unfoldable pub openai_text : Value → Result Value
unfolding content_of
openai_text response = elim (content_of response) [
  | none ↦ raised runtime_error (codes "Unexpected response structure from /chat/completions")
  | some content ↦ ok content
]

unparsed : Text → Result Object
unparsed text = raised runtime_error (codes "Could not parse LLM response as JSON: " ++ text)

parsed : Result Object → Result Object
unfolding unparsed
parsed (raised json_decode_error text) = unparsed text
parsed (raised type_error text) = unparsed text
parsed result = result

-- The JSON of an answer's text.
unfoldable pub read_text : Json → (ℕ → Bool) → Value → Result Object
unfolding parsed unparsed no_attribute
read_text json is_space (str text) =
    parsed (json.loads (strip_json_fences is_space text) >>= dict_value json)
read_text json is_space value = no_attribute value (codes "strip")

-- `generate_structured_json` of both providers
unfoldable pub generate_structured_json :
    Json → (ℕ → Bool) → (Request → Reply) → LlmProvider → Text → Text → Object → Result Object
unfolding openai_headers
generate_structured_json json is_space post (anthropic self) system_prompt user_prompt kwargs = do
  response ← anthropic_data (
      post (record {
        timeout = float (codes "120.0");
        url = self.base_url ++ codes "/v1/messages";
        headers = anthropic_headers self;
        payload = anthropic_payload self system_prompt user_prompt kwargs;
      }))
  text ← anthropic_text response
  read_text json is_space text
generate_structured_json json is_space post (openai_compatible self) system_prompt user_prompt
      kwargs =
    do
      payload ← openai_payload self system_prompt user_prompt kwargs
      response ← openai_data (
          post (record {
            timeout = get kwargs (codes "timeout") (float (codes "120.0"));
            url = self.base_url ++ codes "/chat/completions";
            headers = openai_headers self;
            payload = payload;
          }))
      text ← openai_text response
      read_text json is_space text
