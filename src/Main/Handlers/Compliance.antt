-- ===== src/Main/Handlers/Compliance.antt =====
-- The methods `compliance.dnc_check`, `compliance.add_dnc` and `compliance.remove_dnc` of
-- src/main.py.
pub mod Coded
pub mod Sound
pub mod Checked
use property_management_lead.Common.{
  ℕ, Bool, true, false, not, Option, none, some, List, [], ◌∷◌, ◌++◌, map, keep, strip, Text, codes,
  text_eq, is_empty, eqb, Unicode, if◌then◌else◌,
}
use property_management_lead.Common.Dict.{lookup}
use property_management_lead.Common.Json.{get_of, no_attribute, type_name}
use property_management_lead.Common.Result.{Result, ok, raised, ◌>>=◌, Kind, type_error}
use property_management_lead.Common.Value.{
  Value, null, bool, str, object, Fields, end, field, Object, truthy,
}
use property_management_lead.Compliance.{
  DncConfig, DncList, Fault, no_fault, execute_fault, check_dnc, add_dnc_number, remove_dnc_number,
}
use property_management_lead.Database.Schema.{Database}
use property_management_lead.Main.State.{
  Env, Sidecar, Answer, success, failure, Action, Query, err_validation, sql_text,
}

-- `s.split(",")`
unfoldable pub split_commas : Text → List Text
split_commas [] = [] ∷ []
split_commas (c ∷ s) =
    let rest = split_commas s in
    if eqb c b','
    then [] ∷ rest
    else elim rest [ [] ↦ (c ∷ []) ∷ [] | word ∷ words ↦ (c ∷ word) ∷ words ]

-- `[c.strip() for c in value.split(",") if c.strip()]`
area_codes_of : Unicode → Option Text → List Text
unfolding split_commas
area_codes_of unicode none = []
area_codes_of unicode (some value) =
    if is_empty value
    then []
    else keep (λ code. not (is_empty code)) (map (strip unicode.is_space) (split_commas value))

abbrev missing_phone : Answer
missing_phone = failure (codes "Missing 'phone' parameter") err_validation

flag : Text → Bool → Answer
flag name value = success (object (field name (bool value) end))

-- `re` on a value that is no text
no_text {ℓ} : {A : Type ℓ} → Value → Result A
no_text value =
    raised type_error
      (codes "expected string or bytes-like object, got '" ++ (type_name value ++ codes "'"))

with_dnc_list : {K : Type 0} → Sidecar K → DncList → Sidecar K
with_dnc_list s table = record s { database = record s.database { dnc_list = table } }

module _ {K : Type 0} (env : Env K) where
  -- `_get_dnc_config`
  unfoldable pub get_dnc_config : Database → DncConfig
  unfolding area_codes_of
  get_dnc_config db = record {
    enabled = true;
    area_codes =
        area_codes_of env.runtime.unicode (lookup (codes "dnc_blocked_area_codes") db.settings);
    block_international = true;
  }

  -- `check_dnc(phone, db_conn=conn)`, without the configuration
  checked : Value → DncList → Result Bool
  checked (str phone) table = ok (check_dnc env.runtime.unicode phone none (some table))
  checked value table = no_attribute value (codes "strip")

  unfoldable pub dnc_check : Value → Query K
  unfolding checked get_dnc_config
  dnc_check params s = do
    phone ← get_of params (codes "phone") (str [])
    if not (truthy phone)
        then ok missing_phone
        else (checked phone s.database.dnc_list >>= λ is_dnc. ok (
            success (
              object (
                field (codes "is_dnc") (bool is_dnc)
                  (field (codes "enabled") (bool (get_dnc_config s.database).enabled) end)))))

  -- A source that cannot be bound is an exception of `execute`.
  add_bound : Text → Result (Option Text) → DncList → Bool × DncList
  add_bound phone (ok source) table =
      add_dnc_number env.runtime.unicode table phone source env.dnc_fault
  add_bound phone (raised kind message) table =
      add_dnc_number env.runtime.unicode table phone none (execute_fault message)

  add_phone : Value → Value → Action K Answer
  unfolding add_bound with_dnc_list flag no_text
  add_phone (str phone) source s =
      if is_empty phone
      then (ok missing_phone, s)
      else (let (added, table) = add_bound phone (sql_text env source) s.database.dnc_list in
          (ok (flag (codes "added") added), with_dnc_list s table))
  add_phone value source s = if truthy value then (no_text value, s) else (ok missing_phone, s)

  add_read : Result (Value × Value) → Action K Answer
  unfolding add_phone
  add_read (ok (phone, source)) s = add_phone phone source s
  add_read (raised kind message) s = (raised kind message, s)

  unfoldable pub add_dnc : Value → Action K Answer
  unfolding add_read
  add_dnc params s =
      add_read
        (do
          phone ← get_of params (codes "phone") (str [])
          source ← get_of params (codes "source") (str (codes "manual"))
          ok (phone, source))
        s

  remove_phone : Value → Action K Answer
  unfolding with_dnc_list flag no_text
  remove_phone (str phone) s =
      if is_empty phone
      then (ok missing_phone, s)
      else (let (removed, table) =
            remove_dnc_number env.runtime.unicode s.database.dnc_list phone env.dnc_fault in
          ((removed >>= λ b. ok (flag (codes "removed") b)), with_dnc_list s table))
  remove_phone value s = if truthy value then (no_text value, s) else (ok missing_phone, s)

  remove_read : Result Value → Action K Answer
  unfolding remove_phone
  remove_read (ok phone) s = remove_phone phone s
  remove_read (raised kind message) s = (raised kind message, s)

  unfoldable pub remove_dnc : Value → Action K Answer
  unfolding remove_read
  remove_dnc params s = remove_read (get_of params (codes "phone") (str [])) s
