-- ===== src/Main/Handlers/System/Sound.antt =====
-- `schema.apply` of src/main.py keeps the tables well-formed, if the migrations do.
use property_management_lead.Common.{ℕ, List, All, text_eq}
use property_management_lead.Database.Schema.{Database}
use property_management_lead.Main.Sound.{IsSound, Keeps}
use property_management_lead.Main.State.{Env}
use property_management_lead.Database.Schema.{defaults, seed-NodupKeys, apply_schema}
use property_management_lead.Database.Migrations.{Migration}
use property_management_lead.Database.Migrations.Keeps.{run_migrations-Kept}
use property_management_lead.Main.Handlers.System.{schema_apply}
use property_management_lead.Main.Sound.{KeepsSound}

module _ {K : Type 0} (env : Env K) where
  apply_schema-IsSound :
      (db : Database)
      → IsSound env.runtime.unicode db
      → IsSound env.runtime.unicode (apply_schema db)
  unfolding apply_schema
  apply_schema-IsSound db h = record {
    settings = seed-NodupKeys defaults db.settings h.settings;
    dnc_list = h.dnc_list;
    tables = h.tables;
    llm_settings = h.llm_settings;
    sessions = h.sessions;
  }

  version-IsSound :
      (db : Database) (versions : List ℕ)
      → IsSound env.runtime.unicode db
      → IsSound env.runtime.unicode (record db { schema_version = versions })
  version-IsSound db versions h = record {
    settings = h.settings;
    dnc_list = h.dnc_list;
    tables = h.tables;
    llm_settings = h.llm_settings;
    sessions = h.sessions;
  }

  pub schema_apply-Keeps :
      All (λ (m : ℕ × Migration). KeepsSound env.runtime.unicode m.1) env.migrations
      → Keeps env.runtime.unicode (schema_apply env)
  unfolding schema_apply
  schema_apply-Keeps migrations s h =
      run_migrations-Kept (IsSound env.runtime.unicode) version-IsSound env.migrations
        (apply_schema s.database) migrations (apply_schema-IsSound s.database h)
