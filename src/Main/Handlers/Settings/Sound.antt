-- ===== src/Main/Handlers/Settings/Sound.antt =====
-- `settings.set` of src/main.py keeps the tables well-formed.
use property_management_lead.Common.{Option, none, some, Text, text_eq, Bool-cases, inl, inr}
use property_management_lead.Common.Result.{Result, ok, raised}
use property_management_lead.Common.Value.{Value, truthy}
use property_management_lead.Main.Sound.{Keeps}
use property_management_lead.Main.State.{Env}
use property_management_lead.Common.Dict.{insert_or_replace-NodupKeys}
use property_management_lead.Main.Handlers.Settings.{set_row, set_bound, set_read, settings_set}

module _ {K : Type 0} (env : Env K) where
  set_row-Keeps : (key value : Option Text) → Keeps env.runtime.unicode (set_row {K = K} key value)
  unfolding set_row
  set_row-Keeps key none s h = h
  set_row-Keeps none (some value) s h = h
  set_row-Keeps (some key) (some value) s h = record {
    settings = insert_or_replace-NodupKeys key value s.database.settings h.settings;
    dnc_list = h.dnc_list;
    tables = h.tables;
    llm_settings = h.llm_settings;
    sessions = h.sessions;
  }

  set_bound-Keeps :
      (bound : Result (Option Text × Option Text))
      → Keeps env.runtime.unicode (set_bound {K = K} bound)
  unfolding set_bound
  set_bound-Keeps (raised kind message) s h = h
  set_bound-Keeps (ok (key, value)) s h = set_row-Keeps key value s h

  set_read-Keeps : (read : Result (Value × Value)) → Keeps env.runtime.unicode (set_read env read)
  unfolding set_read
  set_read-Keeps (raised kind message) s h = h
  set_read-Keeps (ok (key, value)) s h = elim (Bool-cases (truthy key)) [
    | inl e ↦ rw (e, set_bound) (set_bound-Keeps _ s h)
    | inr e ↦ rw e h
  ]

  pub settings_set-Keeps : (params : Value) → Keeps env.runtime.unicode (settings_set env params)
  unfolding settings_set
  settings_set-Keeps params s h = set_read-Keeps _ s h
