-- ===== src/Main/Handlers/Llm.antt =====
-- The methods `llm_settings.set` and `llm_settings.get` of src/main.py.
pub mod Coded
pub mod Sound
pub mod Masked
pub mod Shown
pub mod Unique
use property_management_lead.Common.{
  ℕ, ◌≡◌, Bool, true, false, not, ◌&&◌, ◌||◌, Option, none, some, List, [], ◌∷◌, ◌++◌, map, keep,
  length, take, contains, ends_with, Text, codes, text_eq, ◌==◌, is_empty, ltb, if◌then◌else◌,
}
use property_management_lead.Common.Json.{get_of, no_attribute}
use property_management_lead.Common.Result.{Result, ok, raised, ◌>>=◌, database_error}
use property_management_lead.Common.Value.{
  pos, Value, null, bool, int, str, array, object, Items, nil, cons, Fields, end, field, truthy,
}
use property_management_lead.Credentials.{
  World, provider_text, key_name, store_credential, get_credential, mask_key,
}
use property_management_lead.Database.Schema.{Database}
use property_management_lead.Llm.Factory.{LlmSettings, less}
use property_management_lead.Main.State.{
  Env, Sidecar, Answer, success, failure, Action, Query, sql_text,
}

-- The CHECK of the column `provider`, which NULL passes.
abbrev pub providers : List Text
providers = codes "anthropic" ∷ codes "openai" ∷ codes "openpipe" ∷ codes "local_ollama" ∷ []

unfoldable pub is_provider : Option Text → Bool
is_provider none = true
is_provider (some name) = contains providers name

-- `=` in SQL: nothing equals NULL.
unfoldable pub same_text : Option Text → Option Text → Bool
same_text none t = false
same_text (some s) none = false
same_text (some s) (some t) = s == t

-- `row.provider = ?`
unfoldable pub same_provider : Option Text → LlmSettings → Bool
unfolding same_text
same_provider name row = same_text name row.provider

-- `INSERT OR REPLACE`: the row with the same provider goes.
unfoldable pub replace_row : LlmSettings → List LlmSettings → List LlmSettings
unfolding same_provider
replace_row row rows = keep (λ r. not (same_provider row.provider r)) rows ++ row ∷ []

-- `api_key[:4] + "****" if api_key and len(api_key) > 4 else (api_key or "")`
unfoldable pub stored_key : Text → Text
stored_key api_key = if ltb 4 (length api_key) then take 4 api_key ++ codes "****" else api_key

abbrev pub row_of : Option Text → Option Text → Option Text → Text → Bool → LlmSettings
row_of name key base_url model active = record {
  provider = name;
  api_key = key;
  base_url = base_url;
  selected_model = model;
  is_active = active;
}

-- What the constraints of the table refuse: NOT NULL and CHECK.
constrained : Option Text → Option Text → Option Text → Option Text → Bool → Result LlmSettings
constrained name key base_url none active =
    raised database_error (codes "NOT NULL constraint failed: llm_settings.selected_model")
constrained name key base_url (some model) active =
    if is_provider name
    then ok (row_of name key base_url model active)
    else raised database_error (
        codes
          "CHECK constraint failed: provider IN (\"anthropic\", \"openai\", \"openpipe\", \"local_ollama\")")

-- The columns as they are bound.
new_row :
    Result (Option Text)
    → Result (Option Text)
    → Result (Option Text)
    → Result (Option Text)
    → Bool
    → Result LlmSettings
unfolding constrained
new_row provider key base_url selected_model active = do
  name ← provider
  stored ← key
  url ← base_url
  model ← selected_model
  constrained name stored url model active

insert_row : {K : Type 0} → Result LlmSettings → Action K Answer
insert_row (raised kind message) s = (raised kind message, s)
insert_row (ok row) s = (
  ok (success (str (codes "OK"))),
  record s {
    database = record s.database { llm_settings = replace_row row s.database.llm_settings };
  },
)

-- `ORDER BY provider`, NULL first
insert_sorted : LlmSettings → List LlmSettings → List LlmSettings
insert_sorted row [] = row ∷ []
insert_sorted row (r ∷ rows) =
    let inserted = insert_sorted row rows in
    if less r.provider row.provider then r ∷ inserted else row ∷ (r ∷ rows)

unfoldable pub by_provider : List LlmSettings → List LlmSettings
unfolding insert_sorted
by_provider [] = []
by_provider (row ∷ rows) = insert_sorted row (by_provider rows)

nullable : Option Text → Value
nullable none = null
nullable (some s) = str s

pub row_fields : LlmSettings → Value → Value
unfolding nullable
row_fields row key = object (
    field (codes "provider") (nullable row.provider) (
      field (codes "api_key") key (
        field (codes "base_url") (nullable row.base_url) (
          field (codes "selected_model") (str row.selected_model)
            (field (codes "is_active") (int (pos (if row.is_active then 1 else 0))) end)))))

pub items_of : List Value → Items
items_of [] = nil
items_of (value ∷ values) = cons value (items_of values)

module _ {K : Type 0} (env : Env K) where
  -- The keychain with the key, unless that is empty or masked.
  stored : Value → Text → World K → World K
  stored provider api_key w =
      if is_empty api_key || ends_with api_key (codes "****")
      then w
      else (store_credential env.codec env.keyring (key_name (env.runtime.to_str provider)) api_key
          w).1

  set_key : Value → Text → Value → Action K Answer
  unfolding stored insert_row new_row
  set_key provider api_key params s =
      insert_row
        (get_of params (codes "base_url") (str []) >>= λ base_url.
          get_of params (codes "selected_model") (str []) >>= λ selected_model.
          get_of params (codes "is_active") null >>= λ is_active.
          new_row (sql_text env provider) (sql_text env (str (stored_key api_key)))
            (sql_text env base_url) (sql_text env selected_model) (truthy is_active))
        (record s { world = stored provider api_key s.world })

  -- A key that is no text but truthy has no `endswith`.
  set_read : Value → Result (Value × Value) → Action K Answer
  unfolding set_key
  set_read params (raised kind message) s = (raised kind message, s)
  set_read params (ok (provider, str api_key)) s = set_key provider api_key params s
  set_read params (ok (provider, value)) s =
      if truthy value
      then (no_attribute value (codes "endswith"), s)
      else set_key provider [] params s

  unfoldable pub llm_settings_set : Value → Action K Answer
  unfolding set_read
  llm_settings_set params s =
      set_read params
        (do
          provider ← get_of params (codes "provider") (str [])
          api_key ← get_of params (codes "api_key") (str [])
          ok (provider, api_key))
        s

  -- `get_credential(…)`, or the empty text
  real_key : World K → Option Text → Text
  real_key w provider =
      elim (get_credential env.codec env.keyring (key_name (provider_text provider)) w) [
        | none ↦ []
        | some key ↦ key
      ]

  -- The key of a row as it is shown: from the keychain, or else from the table.
  unfoldable pub shown_key : World K → LlmSettings → Value
  unfolding real_key
  shown_key w row = elim row.api_key [
    | none ↦ null
    | some key ↦
        if is_empty key
        then str []
        else if is_empty (real_key w row.provider)
        then str (mask_key key)
        else str (take 4 (real_key w row.provider) ++ codes "****")
  ]

  unfoldable pub shown_rows : World K → List LlmSettings → List Value
  unfolding row_fields shown_key
  shown_rows w rows = map (λ row. row_fields row (shown_key w row)) (by_provider rows)

  unfoldable pub llm_settings_get : Query K
  unfolding items_of shown_rows
  llm_settings_get s = ok (success (array (items_of (shown_rows s.world s.database.llm_settings))))
