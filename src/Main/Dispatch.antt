-- ===== src/Main/Dispatch.antt =====
-- `_handle_command` and the loop of `main` in src/main.py.
pub mod Sound
pub mod Lines
pub mod RoundTrips
use property_management_lead.Common.{
  ℕ, Bool, true, false, not, Option, none, some, List, [], ◌∷◌, ◌++◌, strip, Text, codes, text_eq,
  is_empty, if◌then◌else◌,
}
use property_management_lead.Common.Dict.{Dict, lookup}
use property_management_lead.Common.Result.{
  Result, ok, raised, Kind, key_error, value_error, json_decode_error,
}
use property_management_lead.Common.Value.{
  Value, null, str, object, Fields, end, Object, entries, get,
}
use property_management_lead.Main.State.{
  Env, Sidecar, Answer, success, failure, response, Action, Query, err_internal, err_validation,
  err_unknown_method,
}
use property_management_lead.Main.Handlers.System
use property_management_lead.Main.Handlers.Agents
use property_management_lead.Main.Handlers.Output
use property_management_lead.Main.Handlers.Compliance
use property_management_lead.Main.Handlers.Captcha
use property_management_lead.Main.Handlers.Llm
use property_management_lead.Main.Handlers.Settings

-- A handler of a command's parameters.
abbrev pub Handler : Type 0 → Type 0
Handler K = Value → Action K Answer

-- A handler that changes nothing.
unfoldable pub reading : {K : Type 0} → (Value → Query K) → Handler K
reading query params s = (query params s, s)

-- The `except` clauses.
unfoldable pub caught : Result Answer → Answer
caught (ok answer) = answer
caught (raised key_error message) = failure (codes "Missing parameter: " ++ message) err_validation
caught (raised value_error message) = failure message err_validation
caught (raised json_decode_error message) = failure message err_validation
caught (raised kind message) = failure message err_internal

module _ {K : Type 0} (env : Env K) where
  -- The methods, in the order of their tests.
  unfoldable pub methods : Dict Text (Handler K)
  unfolding reading
  methods =
      (codes "ping", reading (λ params. System.ping env))
      ∷ (codes "system.health", reading (λ params. System.health env))
      ∷ (codes "schema.apply", λ params. System.schema_apply env)
      ∷ (codes "discovery.import_csv", Agents.import_csv env)
      ∷ (codes "discovery.normalize_apn", reading (Agents.find_apn env))
      ∷ (codes "entity.unmask", reading (Agents.unmask env))
      ∷ (codes "market.score", reading (Agents.score env))
      ∷ (codes "output.export_csv", reading (Output.export_csv env))
      ∷ (codes "output.export_json", reading (Output.export_json env))
      ∷ (codes "output.export_hubspot", reading (Output.export_hubspot env))
      ∷ (codes "compliance.dnc_check", reading (Compliance.dnc_check env))
      ∷ (codes "compliance.add_dnc", Compliance.add_dnc env)
      ∷ (codes "compliance.remove_dnc", Compliance.remove_dnc env)
      ∷ (codes "captcha.detect", reading (Captcha.detect env))
      ∷ (codes "captcha.emit_event", Captcha.emit_event env)
      ∷ (codes "llm_settings.set", Llm.llm_settings_set env)
      ∷ (codes "llm_settings.get", reading (λ params. Llm.llm_settings_get env))
      ∷ (codes "settings.get", reading (Settings.settings_get env))
      ∷ (codes "settings.set", Settings.settings_set env)
      ∷ []

  -- The handler of a method, if there is one: a method that is no text equals none of the names.
  unfoldable pub handler_of : Value → Option (Handler K)
  unfolding methods
  handler_of (str method) = lookup method methods
  handler_of value = none

  unfoldable pub handled : Value → Value → Sidecar K → Answer × Sidecar K
  unfolding handler_of caught
  handled method params s = elim (handler_of method) [
    | none ↦ (failure (codes "Unknown method: " ++ env.runtime.to_str method) err_unknown_method, s)
    | some handler ↦ let (result, s') = handler params s in (caught result, s')
  ]

  unfoldable pub handle_command : Object → Sidecar K → Value × Sidecar K
  unfolding handled response
  handle_command cmd s =
      let (answer, s') =
        handled (get cmd (codes "method") (str [])) (get cmd (codes "params") (object end)) s in
      (response (get cmd (codes "id") null) answer, s')

  -- What is answered to the text of a line: only a JSONDecodeError of `loads` is caught.
  respond : Result Value → Sidecar K → Result Value × Sidecar K
  unfolding handle_command
  respond (raised json_decode_error message) s =
      (ok (response null (failure (codes "Parse error: " ++ message) err_validation)), s)
  respond (raised kind message) s = (raised kind message, s)
  respond (ok (object fields)) s =
      let (answer, s') = handle_command (entries fields) s in (ok answer, s')
  respond (ok value) s =
      (ok (response null (failure (codes "Parse error: Expected JSON object") err_validation)), s)

  -- The response is written to stdout.
  printed : Result Value × Sidecar K → Result (Option Value) × Sidecar K
  printed (raised kind message, s) = (raised kind message, s)
  printed (ok answer, s) =
      (ok (some answer), record s { output = s.output ++ (env.json.dumps answer ++ 10 ∷ []) ∷ [] })

  -- One turn of the loop, with the response: none for a blank line.
  unfoldable pub answer_line : Text → Sidecar K → Result (Option Value) × Sidecar K
  unfolding respond printed
  answer_line line s =
      let text = strip env.runtime.unicode.is_space line in
      if is_empty text then (ok none, s) else printed (respond (env.json.loads text) s)

-- What the loop answered, how it ended, and the state it left.
abbrev pub Served : Type 0 → Type 0
Served K = (List (Option Value) × Result (Unit {0})) × Sidecar K

-- The rest of the loop behind an answer; an exception ends it.
then_serve : {K : Type 0} → Result (Option Value) × Sidecar K → Served K → Served K
then_serve (raised kind message, s) rest = (([], raised kind message), s)
then_serve (ok answer, s) ((answers, ending), s') = ((answer ∷ answers, ending), s')

-- The loop over stdin: each line with what is outside while it is answered.
unfoldable pub run : {K : Type 0} → List (Env K × Text) → Sidecar K → Served K
unfolding answer_line then_serve
run [] s = (([], ok tt), s)
run ((env, line) ∷ lines) s =
    then_serve (answer_line env line s) (run lines (answer_line env line s).1)
