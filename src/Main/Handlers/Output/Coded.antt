-- ===== src/Main/Handlers/Output/Coded.antt =====
-- The errors that the methods `output.*` of src/main.py answer.
use property_management_lead.Common.{refl, not, Text, codes, text_eq, is_empty}
use property_management_lead.Common.Result.{Result, ok, raised}
use property_management_lead.Common.Value.{Value, array, truthy}
use property_management_lead.Common.Json.{get_of}
use property_management_lead.Main.Coded.{IsCoded, >>=-IsCoded, if-IsCoded}
use property_management_lead.Main.State.{Env, Sidecar}
use property_management_lead.Common.Dict.{lookup}
use property_management_lead.Common.Result.{
  hubspot_auth_error, hubspot_rate_limit_error, value_error, json_decode_error,
}
use property_management_lead.Common.Value.{nil}
use property_management_lead.Hubspot.Api.{Summary}
use property_management_lead.Leads.{format_lead_export}
use property_management_lead.Main.Coded.{is_code}
use property_management_lead.Main.Handlers.Output.{
  hubspot_answer, leads_of, export, export_csv, export_json, setting, post_leads, export_hubspot,
}

hubspot_answer-IsCoded : (result : Result Summary) → IsCoded (hubspot_answer result)
unfolding hubspot_answer is_code
hubspot_answer-IsCoded (ok summary) = tt
hubspot_answer-IsCoded (raised hubspot_auth_error message) = refl
hubspot_answer-IsCoded (raised hubspot_rate_limit_error message) = refl
hubspot_answer-IsCoded (raised value_error message) = refl
hubspot_answer-IsCoded (raised json_decode_error message) = refl
hubspot_answer-IsCoded (raised kind message) = tt

module _ {K : Type 0} (env : Env K) where
  export-IsCoded : (format : Text) (params : Value) → IsCoded (export env format params)
  unfolding export
  export-IsCoded format params = >>=-IsCoded (get_of params (codes "leads") (array nil)) _ λ value.
      >>=-IsCoded (leads_of env value) _ λ leads.
        >>=-IsCoded (format_lead_export env.runtime env.dumps_rows leads format) _ λ text. tt

  pub export_csv-IsCoded : (params : Value) (s : Sidecar K) → IsCoded (export_csv env params s)
  unfolding export_csv
  export_csv-IsCoded params s = export-IsCoded (codes "csv") params

  pub export_json-IsCoded : (params : Value) (s : Sidecar K) → IsCoded (export_json env params s)
  unfolding export_json
  export_json-IsCoded params s = export-IsCoded (codes "json") params

  post_leads-IsCoded : (api_key : Text) (value : Value) → IsCoded (post_leads env api_key value)
  unfolding post_leads
  post_leads-IsCoded api_key value = hubspot_answer-IsCoded _

  pub export_hubspot-IsCoded :
      (params : Value) (s : Sidecar K) → IsCoded (export_hubspot env params s)
  unfolding export_hubspot is_code
  export_hubspot-IsCoded params s =
      if-IsCoded (is_empty (setting env (lookup (codes "hubspot_api_key") s.database.settings))) _ _
        refl
        (>>=-IsCoded (get_of params (codes "leads") (array nil)) _
          λ leads. if-IsCoded (not (truthy leads)) _ _ refl (post_leads-IsCoded _ leads))
