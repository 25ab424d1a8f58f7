-- ===== src/Main/Handlers/Compliance/Checked.antt =====
-- `compliance.dnc_check` and `compliance.add_dnc` of src/main.py on a phone.
use property_management_lead.Common.{◌≡◌, true, false, some, Text, codes, text_eq, is_empty}
use property_management_lead.Common.Dict.{lookup}
use property_management_lead.Common.Json.{get_of}
use property_management_lead.Common.Result.{ok}
use property_management_lead.Common.Value.{
  bool, str, object, Fields, end, field, entries, get, truthy,
}
use property_management_lead.Compliance.{no_fault, default_config, check_dnc, add_dnc_number}
use property_management_lead.Main.State.{Env, Sidecar, success, sql_text}
use property_management_lead.Main.Handlers.Compliance.{
  with_dnc_list, add_bound, add_phone, add_read, add_dnc, checked, get_dnc_config, dnc_check,
}

abbrev pub phone_params : Text → Fields
phone_params phone = field (codes "phone") (str phone) end

module _ {K : Type 0} (env : Env K) where
  pub add_dnc-added :
      (phone : Text) (s : Sidecar K)
      → is_empty phone ≡ false
      → env.dnc_fault ≡ no_fault
      → env.is_encodable (codes "manual") ≡ true
      → (add_dnc env (object (phone_params phone)) s).1.database.dnc_list
        ≡ (add_dnc_number env.runtime.unicode s.database.dnc_list phone
            (some (codes "manual"))
            no_fault).1
  unfolding add_dnc add_read add_phone add_bound with_dnc_list get_of get lookup text_eq sql_text
      entries
  add_dnc-added phone s some_phone fault manual = simp (some_phone, fault, manual)

  pub dnc_check-checked :
      (phone : Text) (s : Sidecar K)
      → is_empty phone ≡ false
      → dnc_check env (object (phone_params phone)) s
        ≡ ok (
            success (
              object (
                field
                  (codes "is_dnc")
                  (bool (
                    check_dnc env.runtime.unicode phone
                      (some default_config)
                      (some s.database.dnc_list)))
                  (field (codes "enabled") (bool true) end))))
  unfolding dnc_check checked get_dnc_config get_of get lookup text_eq truthy entries check_dnc
  dnc_check-checked phone s some_phone = simp some_phone
