-- ===== src/Main/Handlers/Settings/Stored.antt =====
-- `settings.get` after `settings.set` in src/main.py.
use property_management_lead.Common.{
  ◌≡◌, refl, true, false, some, Text, codes, text_eq, ◌==◌, is_empty, if◌then◌else◌, arith,
}
use property_management_lead.Common.Dict.{Dict, lookup, insert_or_replace, lookup-insert_or_replace}
use property_management_lead.Common.Json.{get_of}
use property_management_lead.Common.Result.{ok}
use property_management_lead.Common.Value.{str, object, Fields, end, field, entries, get, truthy}
use property_management_lead.Main.State.{Env, Sidecar, success, sql_text}
use property_management_lead.Main.Handlers.Settings.{
  select_value, set_row, set_bound, set_read, settings_get, settings_set,
}

abbrev pub key_params : Text → Fields
key_params key = field (codes "key") (str key) end

abbrev pub row_params : Text → Text → Fields
row_params key value = field (codes "key") (str key) (field (codes "value") (str value) end)

pub select-insert :
    (key other value : Text) (settings : Dict Text Text)
    → select_value (insert_or_replace key value settings) (some other)
      ≡ (if other == key then str value else select_value settings (some other))
unfolding select_value
select-insert key other value settings =
    ground (arith, lookup-insert_or_replace other key value settings)

module _ {K : Type 0} (env : Env K) where
  sql_text-str :
      (text : Text) → env.is_encodable text ≡ true → sql_text env (str text) ≡ ok (some text)
  unfolding sql_text
  sql_text-str text h = rw h refl

  -- A setting that can be written is written.
  pub settings_set-stored :
      (key value : Text) (s : Sidecar K)
      → is_empty key ≡ false
      → env.is_encodable key ≡ true
      → env.is_encodable value ≡ true
      → (settings_set env (object (row_params key value)) s) ≡ (
        ok (success (str (codes "OK"))),
        record s {
          database = record s.database {
            settings = insert_or_replace key value s.database.settings;
          };
        },
      )
  unfolding settings_set set_read set_bound set_row get_of get lookup text_eq truthy sql_text
      entries insert_or_replace
  settings_set-stored key value s some_key k v = simp (some_key, k, v)

  pub settings_get-select :
      (key : Text) (s : Sidecar K)
      → is_empty key ≡ false
      → env.is_encodable key ≡ true
      → settings_get env (object (key_params key)) s
        ≡ ok (
            success
              (object (field (codes "value") (select_value s.database.settings (some key)) end)))
  unfolding settings_get get_of get lookup text_eq truthy sql_text entries select_value
  settings_get-select key s some_key k = simp (some_key, k)
