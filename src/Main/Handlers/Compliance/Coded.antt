-- ===== src/Main/Handlers/Compliance/Coded.antt =====
-- The errors that the methods `compliance.*` of src/main.py answer.
use property_management_lead.Common.{refl, not, [], codes, text_eq, is_empty, Bool-cases, inl, inr}
use property_management_lead.Common.Result.{Result, ok, raised}
use property_management_lead.Common.Value.{Value, str, truthy}
use property_management_lead.Common.Json.{get_of}
use property_management_lead.Main.Coded.{IsCoded, >>=-IsCoded, if-IsCoded}
use property_management_lead.Main.State.{Env, Sidecar}
use property_management_lead.Compliance.{remove_dnc_number}
use property_management_lead.Main.Coded.{is_code}
use property_management_lead.Main.Handlers.Compliance.{
  flag, no_text, checked, dnc_check, add_phone, add_read, add_dnc, remove_phone, remove_read,
  remove_dnc,
}

module _ {K : Type 0} (env : Env K) where
  pub dnc_check-IsCoded : (params : Value) (s : Sidecar K) → IsCoded (dnc_check env params s)
  unfolding dnc_check is_code
  dnc_check-IsCoded params s = >>=-IsCoded (get_of params (codes "phone") (str [])) _ λ phone.
      if-IsCoded (not (truthy phone)) _ _ refl
        (>>=-IsCoded (checked env phone s.database.dnc_list) _ λ is_dnc. tt)

  add_phone-IsCoded :
      (phone source : Value) (s : Sidecar K) → IsCoded (add_phone env phone source s).0
  unfolding add_phone flag no_text is_code
  add_phone-IsCoded (str phone) source s = elim (Bool-cases (is_empty phone)) [
    | inl e ↦ rw e refl
    | inr e ↦ rw e tt
  ]
  add_phone-IsCoded value source s = elim (Bool-cases (truthy value)) [
    | inl e ↦ rw e tt
    | inr e ↦ rw e refl
  ]

  add_read-IsCoded :
      (read : Result (Value × Value)) (s : Sidecar K) → IsCoded (add_read env read s).0
  unfolding add_read
  add_read-IsCoded (ok (phone, source)) s = add_phone-IsCoded phone source s
  add_read-IsCoded (raised kind message) s = tt

  pub add_dnc-IsCoded : (params : Value) (s : Sidecar K) → IsCoded (add_dnc env params s).0
  unfolding add_dnc
  add_dnc-IsCoded params s = add_read-IsCoded _ s

  remove_phone-IsCoded : (phone : Value) (s : Sidecar K) → IsCoded (remove_phone env phone s).0
  unfolding remove_phone flag no_text is_code
  remove_phone-IsCoded (str phone) s = elim (Bool-cases (is_empty phone)) [
    | inl e ↦ rw e refl
    | inr e ↦ rw e (
        >>=-IsCoded
          (remove_dnc_number env.runtime.unicode s.database.dnc_list phone env.dnc_fault).0 _
          λ b. tt)
  ]
  remove_phone-IsCoded value s = elim (Bool-cases (truthy value)) [
    | inl e ↦ rw e tt
    | inr e ↦ rw e refl
  ]

  remove_read-IsCoded : (phone : Result Value) (s : Sidecar K) → IsCoded (remove_read env phone s).0
  unfolding remove_read
  remove_read-IsCoded (ok phone) s = remove_phone-IsCoded phone s
  remove_read-IsCoded (raised kind message) s = tt

  pub remove_dnc-IsCoded : (params : Value) (s : Sidecar K) → IsCoded (remove_dnc env params s).0
  unfolding remove_dnc
  remove_dnc-IsCoded params s = remove_read-IsCoded _ s
