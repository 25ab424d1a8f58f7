-- ===== src/Main/Handlers/Agents/Coded.antt =====
-- The errors that the agents' methods of src/main.py answer.
use property_management_lead.Common.{
  refl, not, ◌||◌, Option, none, some, List, [], codes, text_eq, Bool-cases, inl, inr,
}
use property_management_lead.Common.Result.{Result, ok, raised}
use property_management_lead.Common.Value.{Value, float, str, truthy}
use property_management_lead.Common.Json.{get_of}
use property_management_lead.Main.Coded.{IsCoded, >>=-IsCoded, if-IsCoded}
use property_management_lead.Main.State.{Env, Sidecar}
use property_management_lead.Discovery.Columns.{Row}
use property_management_lead.Discovery.Save.{save_records}
use property_management_lead.Llm.Factory.{get_active_llm_client}
use property_management_lead.Market.{default_weights, calculate_priority_score}
use property_management_lead.Main.Coded.{is_code}
use property_management_lead.Main.Handlers.Agents.{
  save_file, import_read, import_path, import_csv, active_llm, unmask_owner, unmask, score, apn_of,
  find_apn,
}

module _ {K : Type 0} (env : Env K) where
  import_read-IsCoded :
      (read : Result (Option (List Row))) (s : Sidecar K) → IsCoded (import_read env read s).0
  unfolding import_read save_file is_code
  import_read-IsCoded (raised kind message) s = tt
  import_read-IsCoded (ok none) s = refl
  import_read-IsCoded (ok (some records)) s =
      >>=-IsCoded (save_records env.runtime 0 records s.database.tables).0 _ λ n. tt

  import_path-IsCoded :
      (file_path : Result Value) (s : Sidecar K) → IsCoded (import_path env file_path s).0
  unfolding import_path is_code
  import_path-IsCoded (raised kind message) s = tt
  import_path-IsCoded (ok file_path) s = elim (Bool-cases (truthy file_path)) [
    | inl e ↦ rw (e, import_read) (import_read-IsCoded _ s)
    | inr e ↦ rw e refl
  ]

  pub import_csv-IsCoded : (params : Value) (s : Sidecar K) → IsCoded (import_csv env params s).0
  unfolding import_csv
  import_csv-IsCoded params s = import_path-IsCoded _ s

  pub unmask-IsCoded : (params : Value) (s : Sidecar K) → IsCoded (unmask env params s)
  unfolding unmask is_code
  unmask-IsCoded params s =
      >>=-IsCoded (active_llm env (get_active_llm_client s.database.llm_settings)) _ λ llm.
        >>=-IsCoded (get_of params (codes "apn") (str [])) _ λ apn.
          >>=-IsCoded (get_of params (codes "recorded_owner") (str [])) _ λ owner.
            if-IsCoded (not (truthy apn) || not (truthy owner)) _ _ refl
              (>>=-IsCoded (unmask_owner env apn owner llm) _ λ result. tt)

  pub score-IsCoded : (params : Value) (s : Sidecar K) → IsCoded (score env params s)
  unfolding score
  score-IsCoded params s =
      >>=-IsCoded (get_of params (codes "vacancy_risk") (float (codes "0.0"))) _ λ vacancy_risk.
        >>=-IsCoded (get_of params (codes "rental_yield_delta") (float (codes "0.0"))) _ λ delta.
          >>=-IsCoded (get_of params (codes "competitor_sentiment") (float (codes "0.0"))) _
            λ sentiment.
              >>=-IsCoded
                (calculate_priority_score env.arithmetic default_weights vacancy_risk delta
                  sentiment)
                _ λ result. tt

  pub find_apn-IsCoded : (params : Value) (s : Sidecar K) → IsCoded (find_apn env params s)
  unfolding find_apn
  find_apn-IsCoded params s = >>=-IsCoded (get_of params (codes "address") (str [])) _ λ address.
      >>=-IsCoded (get_of params (codes "county") (str [])) _
        λ county. >>=-IsCoded (apn_of env address county) _ λ apn. tt
