-- ===== src/Main/Handlers/System/Coded.antt =====
-- The errors that `system.health` and `schema.apply` of src/main.py answer.
use property_management_lead.Common.{text_eq}
use property_management_lead.Common.Value.{Value}
use property_management_lead.Main.Coded.{IsCoded, >>=-IsCoded}
use property_management_lead.Main.State.{Env, Sidecar}
use property_management_lead.Database.Schema.{apply_schema}
use property_management_lead.Database.Migrations.{run_migrations}
use property_management_lead.Main.Handlers.System.{ping, health, schema_apply}

module _ {K : Type 0} (env : Env K) where
  pub ping-IsCoded : (params : Value) (s : Sidecar K) → IsCoded (ping env s)
  unfolding ping
  ping-IsCoded params s = tt

  pub health-IsCoded : (params : Value) (s : Sidecar K) → IsCoded (health env s)
  unfolding health
  health-IsCoded params s = >>=-IsCoded env.db_file _ λ size. tt

  pub schema_apply-IsCoded : (params : Value) (s : Sidecar K) → IsCoded (schema_apply env s).0
  unfolding schema_apply
  schema_apply-IsCoded params s =
      >>=-IsCoded (run_migrations env.migrations (apply_schema s.database)).0 _ λ done. tt
