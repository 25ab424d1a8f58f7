-- ===== src/Main/Handlers/Captcha/Sound.antt =====
-- `captcha.emit_event` of src/main.py keeps the tables well-formed.
use property_management_lead.Common.{false, none, text_eq}
use property_management_lead.Common.Result.{Result, ok, raised}
use property_management_lead.Common.Value.{Value}
use property_management_lead.Main.Sound.{Keeps}
use property_management_lead.Main.State.{Env}
use property_management_lead.Captcha.Sessions.{save_session_state-UniqueSessions}
use property_management_lead.Main.Handlers.Captcha.{emit_target, emit_read, emit_event}

module _ {K : Type 0} (env : Env K) where
  emit_read-Keeps : (target : Result Value) → Keeps env.runtime.unicode (emit_read env target)
  unfolding emit_read emit_target
  emit_read-Keeps (raised kind message) s h = h
  emit_read-Keeps (ok target) s h = record {
    settings = h.settings;
    dnc_list = h.dnc_list;
    tables = h.tables;
    llm_settings = h.llm_settings;
    sessions =
        save_session_state-UniqueSessions env.json s.database.captcha_sessions env.state_id false
          none target h.sessions;
  }

  pub emit_event-Keeps : (params : Value) → Keeps env.runtime.unicode (emit_event env params)
  unfolding emit_event
  emit_event-Keeps params s h = emit_read-Keeps _ s h
