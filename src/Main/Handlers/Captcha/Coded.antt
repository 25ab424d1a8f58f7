-- ===== src/Main/Handlers/Captcha/Coded.antt =====
-- The errors that `captcha.detect` and `captcha.emit_event` of src/main.py answer.
use property_management_lead.Common.{[], codes, text_eq}
use property_management_lead.Common.Result.{Result, ok, raised}
use property_management_lead.Common.Value.{Value, str}
use property_management_lead.Common.Json.{get_of}
use property_management_lead.Main.Coded.{IsCoded, >>=-IsCoded}
use property_management_lead.Main.State.{Env, Sidecar}
use property_management_lead.Main.Handlers.Captcha.{
  detected, detect, emit_target, emit_read, emit_event,
}

module _ {K : Type 0} (env : Env K) where
  pub detect-IsCoded : (params : Value) (s : Sidecar K) → IsCoded (detect env params s)
  unfolding detect
  detect-IsCoded params s =
      >>=-IsCoded (get_of params (codes "page_source") (str [])) _
        λ page_source. >>=-IsCoded (detected env page_source) _ λ blocked. tt

  emit_read-IsCoded : (target : Result Value) (s : Sidecar K) → IsCoded (emit_read env target s).0
  unfolding emit_read emit_target
  emit_read-IsCoded (raised kind message) s = tt
  emit_read-IsCoded (ok target) s = tt

  pub emit_event-IsCoded : (params : Value) (s : Sidecar K) → IsCoded (emit_event env params s).0
  unfolding emit_event
  emit_event-IsCoded params s = emit_read-IsCoded _ s
