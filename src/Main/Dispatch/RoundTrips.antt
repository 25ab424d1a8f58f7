-- ===== src/Main/Dispatch/RoundTrips.antt =====
-- Commands of src/main.py that are seen through later ones.
use property_management_lead.Common.{
  ◌≡◌, refl, ap, ◌∙◌, Bool, true, false, ◌||◌, some, [], ◌∷◌, Text, codes, text_eq, ◌==◌, is_empty,
  if◌then◌else◌,
}
use property_management_lead.Common.Dict.{lookup}
use property_management_lead.Common.Result.{Result, ok}
use property_management_lead.Common.Value.{
  Value, bool, str, object, Fields, end, field, Object, get,
}
use property_management_lead.Compliance.{
  DncList, no_fault, default_config, normalise_phone, check_dnc,
}
use property_management_lead.Compliance.Listed.{is_number, check_dnc-add_dnc_number}
use property_management_lead.Main.Handlers.Compliance.{add_dnc, dnc_check}
use property_management_lead.Main.Handlers.Compliance.Checked.{
  phone_params, add_dnc-added, dnc_check-checked,
}
use property_management_lead.Main.Handlers.Settings.{select_value, settings_get, settings_set}
use property_management_lead.Main.Handlers.Settings.Stored.{
  key_params, row_params, select-insert, settings_set-stored, settings_get-select,
}
use property_management_lead.Main.State.{Env, Sidecar, Answer, success, response}
use property_management_lead.Main.Dispatch.{methods, handler_of, handled, handle_command, caught}

abbrev pub command : Value → Text → Fields → Object
command id method params =
    (codes "id", id) ∷ (codes "method", str method) ∷ (codes "params", object params) ∷ []

module _ {K : Type 0} (env : Env K) (s : Sidecar K) (id : Value) where
  -- How a command reaches the handler of its method.
  handled_get :
      (params : Fields)
      → handle_command env (command id (codes "settings.get") params) s
        ≡ (response id (caught (settings_get env (object params) s)), s)
  unfolding handle_command handled handler_of methods lookup text_eq get response
  handled_get params = refl

  handled_set :
      (params : Fields)
      → handle_command env (command id (codes "settings.set") params) s ≡ (
        response id (caught (settings_set env (object params) s).0),
        (settings_set env (object params) s).1,
      )
  unfolding handle_command handled handler_of methods lookup text_eq get response
  handled_set params = refl

  handled_add_dnc :
      (params : Fields)
      → handle_command env (command id (codes "compliance.add_dnc") params) s ≡ (
        response id (caught (add_dnc env (object params) s).0),
        (add_dnc env (object params) s).1,
      )
  unfolding handle_command handled handler_of methods lookup text_eq get response
  handled_add_dnc params = refl

  handled_dnc_check :
      (params : Fields)
      → handle_command env (command id (codes "compliance.dnc_check") params) s
        ≡ (response id (caught (dnc_check env (object params) s)), s)
  unfolding handle_command handled handler_of methods lookup text_eq get response
  handled_dnc_check params = refl

answered :
    (id value value' : Value)
    → value ≡ value'
    → response id (caught (ok (success (object (field (codes "value") value end)))))
      ≡ response id (success (object (field (codes "value") value' end)))
unfolding caught
answered id value value' e =
    ap (λ v. response id (success (object (field (codes "value") v end)))) e

-- A setting with a key that is not empty, where key and value can be encoded: once it is set, it is
-- what `settings.get` answers for its key, under the id of that command, and every other key is
-- answered as before.
pub settings_get-settings_set :
    {K : Type 0} (env env' : Env K) (s : Sidecar K) (id id' : Value) (key value other : Text)
    → is_empty key ≡ false
    → is_empty other ≡ false
    → env.is_encodable key ≡ true
    → env.is_encodable value ≡ true
    → env'.is_encodable other ≡ true
    → (handle_command env'
        (command id' (codes "settings.get") (key_params other))
        (handle_command env (command id (codes "settings.set") (row_params key value)) s).1).0
      ≡ response id' (
          success (
            object (
              field
                (codes "value")
                (if other == key then str value else select_value s.database.settings (some other))
                end)))
settings_get-settings_set {K} env env' s id id' key value other some_key some_other k v o =
    let written = settings_set-stored env key value s some_key k v in
    let stored = ap (λ (r : Result Answer × Sidecar K). r.1) written in
    let after =
      ap (λ (r : Value × Sidecar K). r.1) (handled_set env s id (row_params key value)) ∙ stored in
    ap
      (λ (s' : Sidecar K).
        (handle_command env' (command id' (codes "settings.get") (key_params other)) s').0)
      after
    ∙ ap (λ (r : Value × Sidecar K). r.0) (handled_get env' _ id' (key_params other))
    ∙ ap (λ (r : Result Answer). response id' (caught r))
        (settings_get-select env' other _ some_other o)
    ∙ answered id' _ _ (select-insert key other value s.database.settings)

-- The answer to `compliance.dnc_check`.
abbrev pub dnc_answer : Value → Bool → Value
dnc_answer id is_dnc = response id (
    success
      (object (field (codes "is_dnc") (bool is_dnc) (field (codes "enabled") (bool true) end))))

checked_answer :
    (id : Value) (b b' : Bool)
    → b ≡ b'
    → response id (
        caught (
          ok (
            success (
              object (field (codes "is_dnc") (bool b) (field (codes "enabled") (bool true) end))))))
      ≡ dnc_answer id b'
unfolding caught
checked_answer id b b' e = ap (dnc_answer id) e

-- A phone that has a normal form: once it is added without a fault of SQLite, `compliance.dnc_check`
-- answers for every phone that is not empty that it is blocked, if it has that normal form, and
-- otherwise as before the phone was added; where Python's character tables stay the same.
pub dnc_check-add_dnc :
    {K : Type 0} (env env' : Env K) (s : Sidecar K) (id id' : Value) (phone query : Text)
    {number : Text}
    → is_empty phone ≡ false
    → is_empty query ≡ false
    → env.dnc_fault ≡ no_fault
    → env.is_encodable (codes "manual") ≡ true
    → env'.runtime.unicode ≡ env.runtime.unicode
    → normalise_phone env.runtime.unicode phone ≡ some number
    → (handle_command env'
        (command id' (codes "compliance.dnc_check") (phone_params query))
        (handle_command env (command id (codes "compliance.add_dnc") (phone_params phone)) s).1).0
      ≡ dnc_answer id' (
          check_dnc env.runtime.unicode query (some default_config) (some s.database.dnc_list)
          || is_number (normalise_phone env.runtime.unicode query) number)
dnc_check-add_dnc {K} env env' s id id' phone query some_phone some_query fault manual same normal =
    let table = add_dnc-added env phone s some_phone fault manual in
    let added =
      ap (λ (r : Value × Sidecar K). r.1) (handled_add_dnc env s id (phone_params phone)) in
    ap
      (λ (s' : Sidecar K).
        (handle_command env' (command id' (codes "compliance.dnc_check") (phone_params query))
          s').0)
      added
    ∙ ap (λ (r : Value × Sidecar K). r.0) (handled_dnc_check env' _ id' (phone_params query))
    ∙ ap (λ (r : Result Answer). response id' (caught r))
        (dnc_check-checked env' query _ some_query)
    ∙ checked_answer id' _ _ (
        ap
          (λ u.
            check_dnc u query (some default_config)
              (some (add_dnc env (object (phone_params phone)) s).1.database.dnc_list))
          same
        ∙ ap (λ (t : DncList). check_dnc env.runtime.unicode query (some default_config) (some t))
            table
        ∙ check_dnc-add_dnc_number env.runtime.unicode phone (some (codes "manual"))
            s.database.dnc_list query default_config normal)
