-- ===== src/Main/Handlers/Captcha.antt =====
-- The methods `captcha.detect` and `captcha.emit_event` of src/main.py.
pub mod Coded
pub mod Sound
use property_management_lead.Common.{
  Bool, true, false, Option, none, some, List, [], ◌∷◌, ◌++◌, Text, codes, text_eq,
}
use property_management_lead.Common.Json.{get_of, no_attribute, fields_of}
use property_management_lead.Common.Result.{Result, ok, raised, ◌>>=◌}
use property_management_lead.Common.Value.{
  Value, null, bool, str, object, Fields, end, field, Object,
}
use property_management_lead.Captcha.{
  Sessions, detect_block, save_session_state, emit_captcha_event,
}
use property_management_lead.Database.Schema.{Database}
use property_management_lead.Main.State.{Env, Sidecar, Answer, success, Action, Query}

-- The event as a value, and the line that is written for it.
event_value : Option Object → Value
event_value none = null
event_value (some event) = object (fields_of event)

module _ {K : Type 0} (env : Env K) where
  detected : Value → Result Bool
  detected (str page_source) = ok (detect_block env.runtime.unicode page_source)
  detected value = no_attribute value (codes "lower")

  unfoldable pub detect : Value → Query K
  unfolding detected
  detect params s = do
    page_source ← get_of params (codes "page_source") (str [])
    blocked ← detected page_source
    ok (success (object (field (codes "blocked") (bool blocked) end)))

  printed : Option Object → List Text
  unfolding event_value
  printed none = []
  printed (some event) = (env.json.dumps (event_value (some event)) ++ 10 ∷ []) ∷ []

  -- A session without a page is saved, and its event written.
  emit_target : Value → Action K Answer
  unfolding printed event_value
  emit_target target s =
      let (state_id, sessions) =
        save_session_state env.json s.database.captcha_sessions env.state_id false none target in
      let event = emit_captcha_event target (some state_id) in
      (
        ok (success (event_value event)),
        record s {
          database = record s.database { captcha_sessions = sessions };
          output = s.output ++ printed event;
        },
      )

  emit_read : Result Value → Action K Answer
  unfolding emit_target
  emit_read (ok target) s = emit_target target s
  emit_read (raised kind message) s = (raised kind message, s)

  unfoldable pub emit_event : Value → Action K Answer
  unfolding emit_read
  emit_event params s = emit_read (get_of params (codes "target") (str [])) s
