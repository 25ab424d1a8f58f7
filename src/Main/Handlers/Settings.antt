-- ===== src/Main/Handlers/Settings.antt =====
-- The methods `settings.get` and `settings.set` of src/main.py.
pub mod Coded
pub mod Sound
pub mod Stored
use property_management_lead.Common.{
  Bool, true, false, not, Option, none, some, List, [], ◌∷◌, Text, codes, text_eq, if◌then◌else◌,
}
use property_management_lead.Common.Dict.{Dict, lookup, insert_or_replace}
use property_management_lead.Common.Json.{get_of}
use property_management_lead.Common.Result.{Result, ok, raised, ◌>>=◌, database_error}
use property_management_lead.Common.Value.{Value, null, str, object, Fields, end, field, truthy}
use property_management_lead.Database.Schema.{Database}
use property_management_lead.Main.State.{
  Env, Sidecar, Answer, success, failure, Action, Query, err_validation, sql_text,
}

abbrev missing_key : Answer
missing_key = failure (codes "Missing key") err_validation

-- `SELECT value FROM settings WHERE key = ?`; nothing equals NULL.
unfoldable pub select_value : Dict Text Text → Option Text → Value
select_value settings none = null
select_value settings (some key) = elim (lookup key settings) [
  | none ↦ null
  | some value ↦ str value
]

-- The key and the value of a new row. A row whose key is NULL is found by no query and left out.
set_row : {K : Type 0} → Option Text → Option Text → Action K Answer
set_row key none s = (raised database_error (codes "NOT NULL constraint failed: settings.value"), s)
set_row none (some value) s = (ok (success (str (codes "OK"))), s)
set_row (some key) (some value) s = (
  ok (success (str (codes "OK"))),
  record s {
    database = record s.database { settings = insert_or_replace key value s.database.settings };
  },
)

set_bound : {K : Type 0} → Result (Option Text × Option Text) → Action K Answer
unfolding set_row
set_bound (raised kind message) s = (raised kind message, s)
set_bound (ok (key, value)) s = set_row key value s

module _ {K : Type 0} (env : Env K) where
  unfoldable pub settings_get : Value → Query K
  settings_get params s = do
    key ← get_of params (codes "key") (str [])
    if not (truthy key)
        then ok missing_key
        else (sql_text env key >>= λ bound.
            ok (
              success
                (object (field (codes "value") (select_value s.database.settings bound) end))))

  set_read : Result (Value × Value) → Action K Answer
  unfolding set_bound
  set_read (raised kind message) s = (raised kind message, s)
  set_read (ok (key, value)) s =
      if not (truthy key)
      then (ok missing_key, s)
      else set_bound (sql_text env key >>= λ k. sql_text env value >>= λ v. ok (k, v)) s

  unfoldable pub settings_set : Value → Action K Answer
  unfolding set_read
  settings_set params s =
      set_read
        (do
          key ← get_of params (codes "key") (str [])
          value ← get_of params (codes "value") (str [])
          ok (key, value))
        s
