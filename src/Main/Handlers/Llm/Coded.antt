-- ===== src/Main/Handlers/Llm/Coded.antt =====
-- The errors that the methods `llm_settings.*` of src/main.py answer.
use property_management_lead.Common.{[], Text, text_eq, Bool-cases, inl, inr}
use property_management_lead.Common.Result.{Result, ok, raised}
use property_management_lead.Common.Value.{Value, str, truthy}
use property_management_lead.Main.Coded.{IsCoded}
use property_management_lead.Main.State.{Env, Sidecar}
use property_management_lead.Common.Json.{no_attribute}
use property_management_lead.Llm.Factory.{LlmSettings}
use property_management_lead.Main.Handlers.Llm.{
  insert_row, set_key, set_read, llm_settings_set, llm_settings_get,
}

module _ {K : Type 0} (env : Env K) where
  insert_row-IsCoded : (row : Result LlmSettings) (s : Sidecar K) → IsCoded (insert_row row s).0
  unfolding insert_row
  insert_row-IsCoded (raised kind message) s = tt
  insert_row-IsCoded (ok row) s = tt

  set_key-IsCoded :
      (provider : Value) (api_key : Text) (params : Value) (s : Sidecar K)
      → IsCoded (set_key env provider api_key params s).0
  unfolding set_key
  set_key-IsCoded provider api_key params s = insert_row-IsCoded _ _

  set_read-IsCoded :
      (params : Value) (read : Result (Value × Value)) (s : Sidecar K)
      → IsCoded (set_read env params read s).0
  unfolding set_read no_attribute
  set_read-IsCoded params (raised kind message) s = tt
  set_read-IsCoded params (ok (provider, str api_key)) s = set_key-IsCoded provider api_key params s
  set_read-IsCoded params (ok (provider, value)) s = elim (Bool-cases (truthy value)) [
    | inl e ↦ rw e tt
    | inr e ↦ rw (e, set_key) (set_key-IsCoded provider [] params s)
  ]

  pub llm_settings_set-IsCoded :
      (params : Value) (s : Sidecar K) → IsCoded (llm_settings_set env params s).0
  unfolding llm_settings_set
  llm_settings_set-IsCoded params s = set_read-IsCoded params _ s

  pub llm_settings_get-IsCoded : (params : Value) (s : Sidecar K) → IsCoded (llm_settings_get env s)
  unfolding llm_settings_get
  llm_settings_get-IsCoded params s = tt
