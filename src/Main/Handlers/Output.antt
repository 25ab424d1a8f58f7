-- ===== src/Main/Handlers/Output.antt =====
-- The methods `output.export_csv`, `output.export_json` and `output.export_hubspot` of src/main.py.
pub mod Coded
use property_management_lead.Common.{
  ℕ, Bool, true, false, not, Option, none, some, List, [], ◌∷◌, ◌++◌, map, Text, codes, text_eq,
  is_empty, if◌then◌else◌,
}
use property_management_lead.Common.Dict.{lookup}
use property_management_lead.Common.Json.{get_of, iterated}
use property_management_lead.Common.Result.{
  Result, ok, raised, ◌>>=◌, Kind, value_error, json_decode_error, hubspot_auth_error,
  hubspot_rate_limit_error,
}
use property_management_lead.Common.Value.{
  pos, Value, null, int, str, array, object, Items, nil, cons, Fields, end, field, Object, truthy,
}
use property_management_lead.Database.Schema.{Database}
use property_management_lead.Hubspot.Api.{Call, Summary, Failure}
use property_management_lead.Leads.{deduplicate, format_lead_export}
use property_management_lead.Leads.Export.{export_to_hubspot}
use property_management_lead.Main.State.{
  Env, Sidecar, Answer, success, failure, Query, err_validation, err_auth, err_ratelimit,
}

texts : List Text → Items
texts [] = nil
texts (s ∷ rest) = cons (str s) (texts rest)

failures : List Failure → Items
failures [] = nil
failures (f ∷ rest) =
    cons (object (field (codes "email") f.email (field (codes "error") f.error end)))
      (failures rest)

-- The dict of a summary.
summary_value : Summary → Value
unfolding texts failures
summary_value summary = object (
    field (codes "total") (int (pos summary.total)) (
      field (codes "succeeded") (array (texts summary.succeeded)) (
        field (codes "failed") (array (failures summary.failed))
          (field (codes "errors") (array (texts summary.errors)) end))))

-- The `except` clauses around the export; any other exception is raised again.
hubspot_answer : Result Summary → Result Answer
unfolding summary_value
hubspot_answer (ok summary) = ok (success (summary_value summary))
hubspot_answer (raised hubspot_auth_error message) =
    ok (failure (codes "HubSpot authentication failed: " ++ message) err_auth)
hubspot_answer (raised hubspot_rate_limit_error message) =
    ok (failure (codes "HubSpot rate limit exceeded: " ++ message) err_ratelimit)
hubspot_answer (raised value_error message) = ok (failure message err_validation)
hubspot_answer (raised json_decode_error message) = ok (failure message err_validation)
hubspot_answer (raised kind message) = raised kind message

module _ {K : Type 0} (env : Env K) where
  -- The leads are read up to the first that is no dict.
  leads_of : Value → Result (List Object)
  leads_of value =
      let (leads, after) = iterated value in
      deduplicate env.runtime leads >>= λ _. after >>= λ _. ok leads

  export : Text → Value → Result Answer
  unfolding leads_of
  export format params = do
    value ← get_of params (codes "leads") (array nil)
    leads ← leads_of value
    text ← format_lead_export env.runtime env.dumps_rows leads format
    ok (success (object (field format (str text) end)))

  unfoldable pub export_csv : Value → Query K
  unfolding export
  export_csv params s = export (codes "csv") params

  unfoldable pub export_json : Value → Query K
  unfolding export
  export_json params s = export (codes "json") params

  -- `(row["value"] if row else "") or ""`
  setting : Option Text → Text
  setting none = []
  setting (some value) = value

  post_leads : Text → Value → Result Answer
  unfolding leads_of hubspot_answer
  post_leads api_key value = hubspot_answer (
      leads_of value >>= λ leads.
      (export_to_hubspot env.runtime (env.hubspot_post api_key) (some []) env.now env.later
        leads).result)

  -- Each command has a new client.
  unfoldable pub export_hubspot : Value → Query K
  unfolding setting post_leads
  export_hubspot params s =
      let api_key = setting (lookup (codes "hubspot_api_key") s.database.settings) in
      if is_empty api_key
      then ok (
          failure (codes "HubSpot API key not configured — set hubspot_api_key in settings")
            err_validation)
      else (get_of params (codes "leads") (array nil) >>= λ leads.
          if not (truthy leads)
          then ok (failure (codes "Missing leads parameter") err_validation)
          else post_leads api_key leads)
