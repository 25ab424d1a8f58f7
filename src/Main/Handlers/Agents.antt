-- ===== src/Main/Handlers/Agents.antt =====
-- The methods `discovery.import_csv`, `discovery.normalize_apn`, `entity.unmask` and `market.score`
-- of src/main.py.
pub mod Coded
pub mod Sound
use property_management_lead.Common.{
  ℕ, Bool, true, false, not, ◌||◌, ◌&&◌, Option, none, some, List, [], ◌∷◌, ◌++◌, Text, codes,
  text_eq, ◌==◌, contains, is_empty, if◌then◌else◌,
}
use property_management_lead.Common.Dict.{lookup, insert}
use property_management_lead.Common.Json.{type_name, get_of, no_attribute, fields_of}
use property_management_lead.Common.Result.{
  Result, ok, raised, ◌>>=◌, Kind, key_error, value_error, json_decode_error, type_error,
  other_error,
}
use property_management_lead.Common.Value.{
  pos, Value, null, bool, int, float, str, array, object, Items, nil, cons, Fields, end, field,
  Object, get, truthy,
}
use property_management_lead.Database.Schema.{Database}
use property_management_lead.Discovery.Columns.{Row}
use property_management_lead.Discovery.Columns
use property_management_lead.Discovery.Apn.{apn_patterns, normalize_apn}
use property_management_lead.Discovery.Save.{Tables, save_records}
use property_management_lead.Entity.Owner.{unmask_entity}
use property_management_lead.Entity.Sos.{LlmClient, perform_sos_lookup}
use property_management_lead.Llm.Factory.{get_active_llm_client}
use property_management_lead.Llm.Providers.{LlmProvider, generate_structured_json}
use property_management_lead.Market.{default_weights, calculate_priority_score}
use property_management_lead.Main.State.{
  Env, Sidecar, Answer, success, failure, Action, Query, err_validation, CsvFile,
}

-- `value == text`
is_text : Text → Value → Bool
is_text text (str s) = s == text
is_text text value = false

abbrev invalid_path : Answer
invalid_path = failure (codes "Invalid file path") err_validation

module _ {K : Type 0} (env : Env K) where
  -- `parse_csv_import` of the agent, with its file
  parse_csv : Text → Result (List Row)
  parse_csv path =
      let file = env.files.open_csv path in
      if not file.exists
      then raised other_error (codes "CSV file not found: " ++ path)
      else elim file.fieldnames [
        | none ↦ raised value_error (codes "CSV file has no headers.")
        | some headers ↦ file.rows >>= Columns.parse_csv_import env.runtime.unicode headers
      ]

  -- The records of the file, or None for an answer about its path.
  read_file : Text → Result (Option (List Row))
  unfolding parse_csv
  read_file file_path = do
    resolved ← env.files.resolve file_path
    file ←
        (if contains (env.files.parts file_path) (codes "..")
          then ok false
          else env.files.is_file resolved)
    if file then (parse_csv resolved >>= λ records. ok (some records)) else ok none

  save_file : List Row → Action K Answer
  save_file records s =
      let (stored, tables) = save_records env.runtime 0 records s.database.tables in
      (
        (stored >>= λ n. ok (success (object (field (codes "imported") (int (pos n)) end)))),
        record s { database = record s.database { tables = tables } },
      )

  import_read : Result (Option (List Row)) → Action K Answer
  unfolding save_file
  import_read (raised kind message) s = (raised kind message, s)
  import_read (ok none) s = (ok invalid_path, s)
  import_read (ok (some records)) s = save_file records s

  -- `Path(value)`
  path_of : Value → Result Text
  path_of (str path) = ok path
  path_of value = raised type_error (
      codes
        "argument should be a str or an os.PathLike object where __fspath__ returns a str, not '"
      ++ (type_name value ++ codes "'"))

  import_path : Result Value → Action K Answer
  unfolding import_read read_file path_of
  import_path (raised kind message) s = (raised kind message, s)
  import_path (ok file_path) s =
      if not (truthy file_path)
      then (ok (failure (codes "Missing file_path") err_validation), s)
      else import_read (path_of file_path >>= read_file) s

  unfoldable pub import_csv : Value → Action K Answer
  unfolding import_path
  import_csv params s = import_path (get_of params (codes "file_path") (str [])) s

  -- `try: get_active_llm_client(conn) except ValueError: None`
  active_llm : Result LlmProvider → Result (Option LlmClient)
  active_llm (ok provider) = ok (
      some λ system_prompt user_prompt.
        generate_structured_json env.json env.runtime.unicode.is_space env.llm_post provider
          system_prompt user_prompt [])
  active_llm (raised value_error message) = ok none
  active_llm (raised json_decode_error message) = ok none
  active_llm (raised kind message) = raised kind message

  -- `sos_result["principals"][0]`, which is truthy
  first_principal : Value → Result Value
  first_principal (array (cons value items)) = ok value
  first_principal (str (c ∷ s)) = ok (str (c ∷ []))
  first_principal (object fields) = raised key_error (codes "0")
  first_principal value =
      raised type_error (codes "'" ++ (type_name value ++ codes "' object is not subscriptable"))

  principal_of : Object → Object → Result Object
  unfolding first_principal
  principal_of result sos_result = do
    principal ← first_principal (get sos_result (codes "principals") null)
    name ← get_of principal (codes "name") null
    phone ← get_of principal (codes "phone") null
    ok (
        insert (codes "unmasked_principal_phone") phone
          (insert (codes "unmasked_principal_name") name result))

  -- The name and the phone of the first principal, if the look-up gave any.
  with_principal : Object → Object → Result Object
  unfolding principal_of is_text
  with_principal result sos_result =
      if is_text (codes "found") (get sos_result (codes "status") null)
        && truthy (get sos_result (codes "principals") null)
      then principal_of result sos_result
      else ok result

  -- The look-up is made where there is a language model.
  looked_up : Object → Text → Option LlmClient → Result Object
  unfolding with_principal
  looked_up result recorded_owner none = ok result
  looked_up result recorded_owner (some llm) =
      if truthy (get result (codes "needs_sos_lookup") null)
      then (perform_sos_lookup env.sos recorded_owner (some llm) >>= λ sos_result.
          with_principal result sos_result >>= λ named.
          ok (insert (codes "sos_lookup") (object (fields_of sos_result)) named))
      else ok result

  -- `pattern.search(recorded_owner)` wants a text.
  unmask_owner : Value → Value → Option LlmClient → Result Object
  unfolding looked_up
  unmask_owner apn (str owner) llm =
      looked_up (unmask_entity env.runtime.unicode env.same apn owner) owner llm
  unmask_owner apn value llm =
      raised type_error
        (codes "expected string or bytes-like object, got '" ++ (type_name value ++ codes "'"))

  unfoldable pub unmask : Value → Query K
  unfolding active_llm unmask_owner
  unmask params s = do
    llm ← active_llm (get_active_llm_client s.database.llm_settings)
    apn ← get_of params (codes "apn") (str [])
    owner ← get_of params (codes "recorded_owner") (str [])
    if not (truthy apn) || not (truthy owner)
        then ok (failure (codes "Missing apn or recorded_owner") err_validation)
        else (unmask_owner apn owner llm >>= λ result. ok (success (object (fields_of result))))

  unfoldable pub score : Value → Query K
  score params s = do
    vacancy_risk ← get_of params (codes "vacancy_risk") (float (codes "0.0"))
    rental_yield_delta ← get_of params (codes "rental_yield_delta") (float (codes "0.0"))
    competitor_sentiment ← get_of params (codes "competitor_sentiment") (float (codes "0.0"))
    result ←
        calculate_priority_score env.arithmetic default_weights vacancy_risk rental_yield_delta
          competitor_sentiment
    ok (success (object (field (codes "priority_score") result end)))

  -- `normalize_apn(address, county)`: a list or a dict is no key of a dict, and `re` wants a text.
  apn_of : Value → Value → Result (Option Text)
  apn_of (str address) (str county) = ok (normalize_apn env.runtime.unicode.is_digit address county)
  apn_of value (str county) = elim (lookup county apn_patterns) [
    | none ↦ ok none
    | some parts ↦
        raised type_error
          (codes "expected string or bytes-like object, got '" ++ (type_name value ++ codes "'"))
  ]
  apn_of address (array items) = raised type_error (codes "unhashable type: 'list'")
  apn_of address (object fields) = raised type_error (codes "unhashable type: 'dict'")
  apn_of address county = ok none

  apn_value : Option Text → Value
  apn_value none = null
  apn_value (some apn) = str apn

  unfoldable pub find_apn : Value → Query K
  unfolding apn_of apn_value
  find_apn params s = do
    address ← get_of params (codes "address") (str [])
    county ← get_of params (codes "county") (str [])
    apn ← apn_of address county
    ok (success (object (field (codes "apn") (apn_value apn) end)))
