-- ===== src/Main/Handlers/Llm/Sound.antt =====
-- `llm_settings.set` of src/main.py keeps the tables well-formed.
use property_management_lead.Common.{
  ◌≡◌, refl, sym, subst, ◌∙◌, Bool, true, Option, none, some, [], Text, codes, text_eq, arith,
  Bool-cases, inl, inr,
}
use property_management_lead.Common.Result.{Result, ok, raised, ◌>>=◌}
use property_management_lead.Common.Value.{Value, null, str, truthy}
use property_management_lead.Common.Json.{get_of}
use property_management_lead.Main.Sound.{Keeps}
use property_management_lead.Main.State.{Env, sql_text}
use property_management_lead.Common.Result.{ok_injective}
use property_management_lead.Llm.Factory.{LlmSettings}
use property_management_lead.Main.Handlers.Llm.Unique.{replace_row-IsTable}
use property_management_lead.Main.Handlers.Llm.{
  is_provider, row_of, constrained, new_row, insert_row, set_key, set_read, llm_settings_set,
}

-- A row that is written passed the CHECK.
Checked : Result LlmSettings → Type 0
Checked row = (r : LlmSettings) → row ≡ ok r → is_provider r.provider ≡ true

>>=-Checked :
    {A : Type 0} (action : Result A) (next : A → Result LlmSettings)
    → ((value : A) → Checked (next value))
    → Checked (action >>= next)
unfolding Checked
>>=-Checked (ok value) next h = h value
>>=-Checked (raised kind message) next h = λ r e. cc

constrained-Checked :
    (name key base_url model : Option Text) (active : Bool)
    → Checked (constrained name key base_url model active)
unfolding Checked constrained
constrained-Checked name key base_url none active r e = cc
constrained-Checked name key base_url (some model) active r e =
    elim (Bool-cases (is_provider name)) [
      | inl h ↦
          let made : constrained name key base_url (some model) active
              ≡ ok (row_of name key base_url model active) =
            rw h refl in
          subst (λ (x : LlmSettings). is_provider x.provider ≡ true) (ok_injective (sym made ∙ e)) h
      | inr h ↦ absurd (ground arith)
    ]

new_row-Checked :
    (provider key base_url selected_model : Result (Option Text)) (active : Bool)
    → Checked (new_row provider key base_url selected_model active)
unfolding new_row
new_row-Checked provider key base_url selected_model active = >>=-Checked provider _ λ name.
    >>=-Checked key _ λ stored.
      >>=-Checked base_url _ λ url.
        >>=-Checked selected_model _ λ model. constrained-Checked name stored url model active

module _ {K : Type 0} (env : Env K) where
  insert_row-Keeps :
      (row : Result LlmSettings) → Checked row → Keeps env.runtime.unicode (insert_row {K = K} row)
  unfolding insert_row Checked
  insert_row-Keeps (raised kind message) c s h = h
  insert_row-Keeps (ok row) c s h = record {
    settings = h.settings;
    dnc_list = h.dnc_list;
    tables = h.tables;
    llm_settings = replace_row-IsTable row s.database.llm_settings (c row refl) h.llm_settings;
    sessions = h.sessions;
  }

  set_key-Keeps :
      (provider : Value) (api_key : Text) (params : Value)
      → Keeps env.runtime.unicode (set_key env provider api_key params)
  unfolding set_key
  set_key-Keeps provider api_key params s h =
      insert_row-Keeps _
        (>>=-Checked (get_of params (codes "base_url") (str [])) _ λ base_url.
          >>=-Checked (get_of params (codes "selected_model") (str [])) _ λ selected_model.
            >>=-Checked (get_of params (codes "is_active") null) _ λ is_active.
              new_row-Checked (sql_text env provider) _ (sql_text env base_url)
                (sql_text env selected_model) (truthy is_active))
        _ h

  set_read-Keeps :
      (params : Value) (read : Result (Value × Value))
      → Keeps env.runtime.unicode (set_read env params read)
  unfolding set_read
  set_read-Keeps params (raised kind message) s h = h
  set_read-Keeps params (ok (provider, str api_key)) s h = set_key-Keeps provider api_key params s h
  set_read-Keeps params (ok (provider, value)) s h = elim (Bool-cases (truthy value)) [
    | inl e ↦ ground (arith, h)
    | inr e ↦ ground (arith, set_key-Keeps provider [] params s h)
  ]

  pub llm_settings_set-Keeps :
      (params : Value) → Keeps env.runtime.unicode (llm_settings_set env params)
  unfolding llm_settings_set
  llm_settings_set-Keeps params s h = set_read-Keeps params _ s h
