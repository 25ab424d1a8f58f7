-- ===== src/Main/Handlers/Settings/Coded.antt =====
-- The errors that `settings.get` and `settings.set` of src/main.py answer.
use property_management_lead.Common.{
  refl, not, Option, none, some, [], Text, codes, text_eq, Bool-cases, inl, inr,
}
use property_management_lead.Common.Result.{Result, ok, raised}
use property_management_lead.Common.Value.{Value, str, truthy}
use property_management_lead.Common.Json.{get_of}
use property_management_lead.Main.Coded.{IsCoded, >>=-IsCoded, if-IsCoded}
use property_management_lead.Main.State.{Env, Sidecar, sql_text}
use property_management_lead.Main.Coded.{is_code}
use property_management_lead.Main.Handlers.Settings.{
  set_row, set_bound, set_read, settings_get, settings_set,
}

module _ {K : Type 0} (env : Env K) where
  pub settings_get-IsCoded : (params : Value) (s : Sidecar K) → IsCoded (settings_get env params s)
  unfolding settings_get is_code
  settings_get-IsCoded params s =
      >>=-IsCoded (get_of params (codes "key") (str [])) _
        λ key. if-IsCoded (not (truthy key)) _ _ refl (>>=-IsCoded (sql_text env key) _ λ bound. tt)

  set_bound-IsCoded :
      (bound : Result (Option Text × Option Text)) (s : Sidecar K) → IsCoded (set_bound bound s).0
  unfolding set_bound set_row
  set_bound-IsCoded (raised kind message) s = tt
  set_bound-IsCoded (ok (key, none)) s = tt
  set_bound-IsCoded (ok (none, some value)) s = tt
  set_bound-IsCoded (ok (some key, some value)) s = tt

  set_read-IsCoded :
      (read : Result (Value × Value)) (s : Sidecar K) → IsCoded (set_read env read s).0
  unfolding set_read is_code
  set_read-IsCoded (raised kind message) s = tt
  set_read-IsCoded (ok (key, value)) s = elim (Bool-cases (truthy key)) [
    | inl e ↦ rw (e, set_bound) (set_bound-IsCoded _ s)
    | inr e ↦ rw e refl
  ]

  pub settings_set-IsCoded :
      (params : Value) (s : Sidecar K) → IsCoded (settings_set env params s).0
  unfolding settings_set
  settings_set-IsCoded params s = set_read-IsCoded _ s
