-- ===== src/Captcha.antt =====
-- src/captcha/handler.py: blocked pages, and browser sessions that are saved and resumed. The state
-- id of `uuid`, what Playwright gives, and JSON are arguments.
pub mod Sessions
use property_management_lead.Common.{
  ◌≡◌, Bool, true, false, Option, none, some, List, [], ◌∷◌, ◌++◌, any, has_infix, Text, codes,
  text_eq, Unicode, if◌then◌else◌,
}
use property_management_lead.Common.Dict.{Dict, lookup, insert_or_replace}
use property_management_lead.Common.Json.{Json, dict_value}
use property_management_lead.Common.Result.{
  Kind, Result, ok, raised, type_error, json_decode_error, database_error, ◌>>=◌,
}
use property_management_lead.Common.Value.{
  Value, null, bool, int, float, str, array, object, Items, nil, cons, Fields, end, field, Object,
  entries,
}

abbrev captcha_indicators : List Text
captcha_indicators =
    codes "cf-browser-verification"
    ∷ codes "g-recaptcha"
    ∷ codes "h-captcha"
    ∷ codes "turnstile"
    ∷ codes "challenge-platform"
    ∷ codes "_cf_chl_opt"
    ∷ codes "just a moment"
    ∷ codes "checking your browser"
    ∷ []

unfoldable pub detect_block : Unicode → Text → Bool
detect_block unicode page_source =
    any (λ indicator. has_infix (unicode.lower page_source) indicator) captcha_indicators

-- What `page.context.cookies()`, `page.evaluate(…)` and `page.url` give in turn, or one of them
-- raises, and `getattr(page, "url", "")`.
pub record Page : Type 0 where
  pub capture : Result (Value × (Value × Value))
  pub url : Value

abbrev stub : Value → Fields
stub target =
    field (codes "target") target
      (field (codes "url") (str []) (field (codes "_stub") (bool true) end))

captured : Value → Page → Fields
captured target page = elim page.capture [
  | ok (cookies, (storage, url)) ↦ field (codes "cookies") cookies (
      field (codes "local_storage") storage
        (field (codes "target") target (field (codes "url") url end)))
  | raised kind message ↦ field (codes "cookies") (array nil) (
      field (codes "local_storage") (str (codes "{}"))
        (field (codes "target") target (field (codes "url") page.url end)))
]

-- `import_error` is whether looking for Playwright raises ImportError.
unfoldable pub session_data : Bool → Option Page → Value → Fields
unfolding captured
session_data import_error none target = stub target
session_data import_error (some page) target =
    if import_error then stub target else captured target page

-- The table `captcha_sessions`, if it was created: state_id ↦ data.
abbrev pub Sessions : Type 0
Sessions = Option (Dict Text Text)

-- CREATE TABLE IF NOT EXISTS
created : Sessions → Dict Text Text
created none = []
created (some table) = table

unfoldable pub save_session_state :
    Json → Sessions → Text → Bool → Option Page → Value → Text × Sessions
unfolding created
save_session_state json db state_id import_error page target = (
  state_id,
  some (
      insert_or_replace state_id (json.dumps (object (session_data import_error page target)))
        (created db)),
)

error_session : Text → Object
error_session message = (codes "_error", str message) ∷ []

-- JSONDecodeError and TypeError are caught.
caught : Result Object → Result Object
unfolding error_session
caught (raised json_decode_error message) =
    ok (error_session (codes "Corrupt session data: " ++ message))
caught (raised type_error message) = ok (error_session (codes "Corrupt session data: " ++ message))
caught result = result

restore : Json → Text → Result Object
unfolding dict_value caught error_session
restore json text = caught (json.loads text >>= dict_value json)

unfoldable pub resume_from_session : Json → Sessions → Text → Result Object
unfolding restore error_session
resume_from_session json none state_id =
    raised database_error (codes "no such table: captcha_sessions")
resume_from_session json (some table) state_id = elim (lookup state_id table) [
  | none ↦ ok (error_session (codes "No saved session for id '" ++ (state_id ++ codes "'")))
  | some text ↦ restore json text
]

unfoldable pub emit_captcha_event : Value → Option Text → Option Object
emit_captcha_event target none = none
emit_captcha_event target (some state_id) = some (
    (codes "event", str (codes "captcha_detected"))
    ∷ (codes "target", target)
    ∷ (codes "state_id", str state_id)
    ∷ [])
