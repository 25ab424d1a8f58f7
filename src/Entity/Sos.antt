-- ===== src/Entity/Sos.antt =====
-- The look-up at the Secretary of State: `perform_sos_lookup` of src/agents/entity_unmasking.py over
-- src/scrapers/ca_sos_parser.py. HTTP, the reader of PDFs and the language model are arguments.
pub mod Status
use property_management_lead.Common.{
  ℕ, ◌≡◌, Bool, true, false, Option, none, some, List, [], ◌∷◌, ◌++◌, take, keep, not, Text, codes,
  text_eq, is_empty, if◌then◌else◌,
}
use property_management_lead.Common.Dict.{Dict, lookup, insert}
use property_management_lead.Common.Result.{
  Result, ok, raised, ◌>>=◌, Kind, key_error, json_decode_error, type_error, runtime_error,
  other_error,
}
use property_management_lead.Common.Value.{
  ℤ, pos, Value, null, bool, int, float, str, array, object, Items, nil, cons, Fields, end, field,
  Object, entries, get, truthy, Runtime,
}
use property_management_lead.Common.Json.{type_name, get_of}

-- An HTTP answer: an error status, a failed request, another exception, or what was received.
pub data Answer (A : Type 0) : Type 0 where
  status_error request_error : Text → Answer A
  other_fault : Kind → Text → Answer A
  received : A → Answer A

-- `pypdf` on a file: whether it is installed, whether the file is there, and the texts of its pages.
pub record Pdf : Type 0 where
  pub path : Text
  pub is_pypdf_installed : Bool
  pub exists : Bool
  pub pages : Result (List Text)

-- `generate_structured_json` of a provider
abbrev pub LlmClient : Type 0
LlmClient = Text → Text → Result Object

-- Lines, each with its line end.
lines_of : List Text → Text
lines_of [] = []
lines_of (line ∷ lines) = line ++ 10 ∷ lines_of lines

sos_system_prompt : Text
unfolding lines_of
sos_system_prompt = lines_of (
    codes
      "You are an expert at parsing California Secretary of State Statements of Information (Form SI-550 / SI-200).  Extract the following JSON fields from the document text:"
    ∷ []
    ∷ codes "- entity_name (str): The exact legal name of the business entity."
    ∷ (codes "- entity_id (str): The California SOS entity number (e.g. "
        ++ ((b'"' ∷ []) ++ (codes "202412312345" ++ ((b'"' ∷ []) ++ (codes ").")))))
    ∷ codes "- filing_date (str | null): Date of the Statement of Information filing."
    ∷ codes "- registered_agent_name (str | null): The agent for service of process."
    ∷ codes "- registered_agent_address (str | null): Street address of the registered agent."
    ∷ codes "- principals (list[dict]): Each with keys:"
    ∷ codes "    - name (str)"
    ∷ codes "    - title (str)"
    ∷ codes "    - address (str | null)"
    ∷ codes "    - phone (str | null)"
    ∷ (codes "- entity_type (str): "
        ++ ((b'"' ∷ [])
            ++ (codes "LLC"
                ++ ((b'"' ∷ [])
                    ++ (codes ", "
                        ++ ((b'"' ∷ [])
                            ++ (codes "Corporation"
                                ++ ((b'"' ∷ [])
                                    ++ (codes ", "
                                        ++ ((b'"' ∷ [])
                                            ++ (codes "LP"
                                                ++ ((b'"' ∷ []) ++ (codes ", etc.")))))))))))))
    ∷ []
    ∷ codes
        "IMPORTANT: Return ONLY the validated JSON object with no additional text or explanation."
    ∷ [])

-- `"\n".join(pages)`
join_lines : List Text → Text
join_lines [] = []
join_lines (page ∷ []) = page
join_lines (page ∷ pages) = page ++ 10 ∷ join_lines pages

unfoldable pub extract_text_from_pdf : Pdf → Option Text
unfolding join_lines
extract_text_from_pdf pdf =
    if not pdf.is_pypdf_installed then none else if not pdf.exists then none else elim pdf.pages [
      | ok pages ↦ some (join_lines (keep (λ page. not (is_empty page)) pages))
      | raised kind message ↦ none
    ]

error_of : Text → Object
error_of message = (codes "_error", str message) ∷ []

-- What the provider gave; its RuntimeError is reported with the first 500 characters of the text.
parsed : Text → Result Object → Result Object
unfolding error_of
parsed text (raised runtime_error message) =
    ok (error_of message ++ (codes "raw_text_preview", str (take 500 text)) ∷ [])
parsed text result = result

parse_text : LlmClient → Text → Result Object
unfolding parsed sos_system_prompt
parse_text llm text = parsed text (
    llm sos_system_prompt
      (codes "Parse the following Statement of Information:" ++ (10 ∷ (10 ∷ text))))

-- `parse_statement_of_information`
unfoldable pub parse_statement_of_information : LlmClient → Pdf → Result Object
unfolding parse_text error_of
parse_statement_of_information llm pdf = elim (extract_text_from_pdf pdf) [
  | none ↦ ok (error_of (codes "Could not extract text from " ++ pdf.path))
  | some text ↦
      if is_empty text
      then ok (error_of (codes "Could not extract text from " ++ pdf.path))
      else parse_text llm text
]

-- `hits[0]`, under the test that `hits` is truthy; a KeyError gives None.
first_hit : Value → Result (Option Value)
first_hit (array (cons value items)) = ok (some value)
first_hit (str (c ∷ s)) = ok (some (str (c ∷ [])))
first_hit (object fields) = ok none
first_hit value =
    if truthy value
    then raised type_error (codes "'" ++ (type_name value ++ codes "' object is not subscriptable"))
    else ok none

-- `data.get("results", []) or data.get("hits", [])`
hits_of : Value → Result Value
unfolding get_of
hits_of response = do
  results ← get_of response (codes "results") (array nil)
  hits ← get_of response (codes "hits") (array nil)
  ok (if truthy results then results else hits)

-- What `json()` gave; JSONDecodeError and KeyError are caught.
read_hits : Result Value → Result (Option Value)
unfolding hits_of first_hit
read_hits (raised json_decode_error message) = ok none
read_hits (raised key_error message) = ok none
read_hits response = do value ← response; hits ← hits_of value; first_hit hits

-- `_search_sos` on the answer: only failed requests and parse errors are caught.
unfoldable pub search_sos : Answer (Result Value) → Result (Option Value)
unfolding read_hits
search_sos (status_error message) = raised other_error message
search_sos (request_error message) = ok none
search_sos (other_fault kind message) = raised kind message
search_sos (received response) = read_hits response

-- What the look-up takes from outside.
pub record SosWeb : Type 0 where
  pub runtime : Runtime
  -- the answer to a search for a name
  pub post : Text → Answer (Result Value)
  -- the file that is loaded from an address
  pub download : Text → Answer Pdf

unfoldable pub get_sos_pdf_url : SosWeb → Value → Text
get_sos_pdf_url web entity_number =
    codes "https://bizfileonline.sos.ca.gov"
    ++ (codes "/api/document/"
        ++ (web.runtime.to_str entity_number ++ codes "/statement-of-information"))

-- `_download_and_parse_sos_pdf`: only a failed request is caught.
unfoldable pub download_and_parse_sos_pdf : SosWeb → Value → LlmClient → Result (Option Object)
unfolding get_sos_pdf_url parse_statement_of_information
download_and_parse_sos_pdf web entity_number llm =
    elim (web.download (get_sos_pdf_url web entity_number)) [
      | status_error message ↦ raised other_error message
      | request_error message ↦ ok none
      | other_fault kind message ↦ raised kind message
      | received pdf ↦ do parsed_pdf ← parse_statement_of_information llm pdf; ok (some parsed_pdf)
    ]

abbrev pub not_found : Object
not_found =
    (codes "sos_number", null)
    ∷ (codes "status", str (codes "not_found"))
    ∷ (codes "entity_type", null)
    ∷ (codes "principals", array nil)
    ∷ (codes "registered_agent", null)
    ∷ []

failed : Text → Object
failed message =
    insert (codes "_error") (str message) (insert (codes "status") (str (codes "error")) not_found)

-- The result with the number and the type of the entity.
found_entity : Value → Value → Object
found_entity entity_number entity_type =
    insert (codes "status") (str (codes "found")) (
      insert (codes "entity_type") entity_type
        (insert (codes "sos_number") entity_number not_found))

registered_agent : Object → Value
registered_agent pdf_result = object (
    field (codes "name") (get pdf_result (codes "registered_agent_name") null)
      (field (codes "address") (get pdf_result (codes "registered_agent_address") null) end))

-- `if pdf_result:`
with_pdf : Object → Option Object → Object
unfolding registered_agent
with_pdf result none = result
with_pdf result (some []) = result
with_pdf result (some (entry ∷ pdf)) =
    insert (codes "registered_agent") (registered_agent (entry ∷ pdf))
      (insert (codes "principals") (get (entry ∷ pdf) (codes "principals") (array nil)) result)

-- The statement is fetched where there is a language model and an entity number.
statement : SosWeb → Option LlmClient → Value → Result (Option Object)
unfolding download_and_parse_sos_pdf
statement web none entity_number = ok none
statement web (some llm) entity_number =
    if truthy entity_number then download_and_parse_sos_pdf web entity_number llm else ok none

found_hit : SosWeb → Option LlmClient → Value → Result Object
unfolding get_of found_entity statement with_pdf
found_hit web llm sos_data = do
  entity_number ← get_of sos_data (codes "entityNumber") null
  entity_type ← get_of sos_data (codes "entityType") null
  pdf_result ← statement web llm entity_number
  ok (with_pdf (found_entity entity_number entity_type) pdf_result)

unfoldable pub perform_sos_lookup : SosWeb → Text → Option LlmClient → Result Object
unfolding search_sos failed found_hit
perform_sos_lookup web recorded_owner llm_client = elim (search_sos (web.post recorded_owner)) [
  | raised kind message ↦ ok (failed message)
  | ok none ↦ ok not_found
  | ok (some sos_data) ↦ if truthy sos_data then found_hit web llm_client sos_data else ok not_found
]
