-- ===== src/Main/Handlers/Llm/Masked.antt =====
-- What the factory of src/llm/factory.py gets of a key that `llm_settings.set` of src/main.py was
-- given.
use property_management_lead.Common.{
  ◌<◌, ◌≡◌, refl, ap, ◌∙◌, true, false, not, some, List, [], ◌∷◌, ◌++◌, keep, keep-append, length,
  take, contains, Text, codes, text_eq, is_empty, arith,
}
use property_management_lead.Common.Dict.{lookup}
use property_management_lead.Common.Json.{get_of}
use property_management_lead.Common.Result.{ok}
use property_management_lead.Common.Value.{
  bool, str, object, Fields, end, field, entries, get, truthy,
}
use property_management_lead.Llm.Factory.{
  LlmSettings, first_by_provider, client_of, get_active_llm_client,
}
use property_management_lead.Llm.Providers.{openai_compatible, connection}
use property_management_lead.Main.State.{Env, Sidecar, sql_text}
use property_management_lead.Main.Handlers.Llm.{
  is_provider, same_provider, replace_row, stored_key, row_of, constrained, new_row, insert_row,
  set_key, set_read, llm_settings_set,
}

abbrev pub openai_params : Text → Text → Fields
openai_params api_key model = field (codes "provider") (str (codes "openai")) (
    field (codes "api_key") (str api_key)
      (field (codes "selected_model") (str model) (field (codes "is_active") (bool true) end)))

abbrev openai_row : Text → Text → LlmSettings
openai_row key model = row_of (some (codes "openai")) (some key) (some []) model true

module _ {K : Type 0} (env : Env K) where
  llm_settings_set-row :
      (api_key model : Text) (s : Sidecar K)
      → env.is_encodable (codes "openai") ≡ true
      → env.is_encodable (stored_key api_key) ≡ true
      → env.is_encodable [] ≡ true
      → env.is_encodable model ≡ true
      → (llm_settings_set env (object (openai_params api_key model)) s).1.database.llm_settings
        ≡ replace_row (openai_row (stored_key api_key) model) s.database.llm_settings
  unfolding llm_settings_set set_read set_key insert_row new_row constrained is_provider contains
      get_of get lookup text_eq sql_text entries truthy
  llm_settings_set-row api_key model s name key url chosen = simp (name, key, url, chosen)

  -- The rows of the other providers that are active.
  abbrev pub others : List LlmSettings → List LlmSettings
  others rows =
      keep (λ row. row.is_active) (keep (λ r. not (same_provider (some (codes "openai")) r)) rows)

  kept_one :
      (key model : Text)
      → keep (λ row. row.is_active) (openai_row key model ∷ []) ≡ openai_row key model ∷ []
  unfolding keep
  kept_one key model = refl

  only_active :
      (key model : Text) (rows : List LlmSettings)
      → others rows ≡ []
      → keep (λ row. row.is_active) (replace_row (openai_row key model) rows)
        ≡ openai_row key model ∷ []
  unfolding replace_row
  only_active key model rows none_active =
      keep-append (λ row. row.is_active)
        (keep (λ r. not (same_provider (some (codes "openai")) r)) rows) (openai_row key model ∷ [])
      ∙ ap
          (λ (xs : List LlmSettings). xs ++ keep (λ row. row.is_active) (openai_row key model ∷ []))
          none_active
      ∙ kept_one key model

  active_one :
      (rows : List LlmSettings) (row : LlmSettings)
      → keep (λ r. r.is_active) rows ≡ row ∷ []
      → get_active_llm_client rows ≡ client_of row
  unfolding get_active_llm_client first_by_provider
  active_one rows row e = rw (get_active_llm_client, e) refl

  client_of-openai :
      (key model : Text)
      → is_empty key ≡ false
      → client_of (openai_row key model)
        ≡ ok (openai_compatible (connection key model (codes "https://api.openai.com/v1")))
  unfolding client_of contains text_eq
  client_of-openai key model some_key = simp some_key

  stored_key-long :
      (api_key : Text) → 4 < length api_key → stored_key api_key ≡ take 4 api_key ++ codes "****"
  unfolding stored_key
  stored_key-long api_key h = ground arith

  masked-non_empty : (s : Text) → is_empty (s ++ codes "****") ≡ false
  masked-non_empty [] = refl
  masked-non_empty (c ∷ s) = refl

  -- After `llm_settings.set` of an OpenAI key of more than four characters without a base URL, as the
  -- only active provider, where the four texts that are bound can be encoded (the provider's name,
  -- the masked key, the empty URL and the model), the client that the other commands use is given
  -- the first four characters of the key and four stars for its key.
  pub get_active_llm_client-llm_settings_set :
      (api_key model : Text) (s : Sidecar K)
      → env.is_encodable (codes "openai") ≡ true
      → env.is_encodable (take 4 api_key ++ codes "****") ≡ true
      → env.is_encodable [] ≡ true
      → env.is_encodable model ≡ true
      → 4 < length api_key
      → others s.database.llm_settings ≡ []
      → get_active_llm_client
          (llm_settings_set env (object (openai_params api_key model)) s).1.database.llm_settings
        ≡ ok (
            openai_compatible (
              connection
                (take 4 api_key ++ codes "****")
                model
                (codes "https://api.openai.com/v1")))
  get_active_llm_client-llm_settings_set api_key model s name key url chosen long none_active =
      let stored = stored_key-long api_key long in
      ap get_active_llm_client
        (llm_settings_set-row api_key model s name (ap env.is_encodable stored ∙ key) url chosen)
      ∙ active_one _ (openai_row (stored_key api_key) model)
          (only_active (stored_key api_key) model s.database.llm_settings none_active)
      ∙ ap (λ k. client_of (openai_row k model)) stored
      ∙ client_of-openai (take 4 api_key ++ codes "****") model (masked-non_empty (take 4 api_key))
