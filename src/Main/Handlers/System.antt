-- ===== src/Main/Handlers/System.antt =====
-- The methods `ping`, `system.health` and `schema.apply` of src/main.py.
pub mod Coded
pub mod Sound
use property_management_lead.Common.{
  ℕ, ◌/◌, Bool, true, false, Option, none, some, List, [], ◌∷◌, Text, codes, text_eq, length,
  if◌then◌else◌,
}
use property_management_lead.Common.Result.{Result, ok, raised, ◌>>=◌}
use property_management_lead.Common.Value.{pos, Value, bool, int, str, object, Fields, end, field}
use property_management_lead.Database.Schema.{Database, apply_schema}
use property_management_lead.Database.Migrations.{run_migrations}
use property_management_lead.Main.State.{Env, Sidecar, Answer, success, Action, Query}

-- `st_size // 1024`, or 0 without a file
size_kb : Option ℕ → ℕ
size_kb none = 0
size_kb (some size) = size / 1024

module _ {K : Type 0} (env : Env K) where
  unfoldable pub ping : Query K
  ping s = ok (success (object (field (codes "pong") (bool true) end)))

  unfoldable pub health : Query K
  unfolding size_kb
  health s = do
    size ← env.db_file
    ok (
        success (
          object (
            field (codes "status") (str (codes "ok")) (
              field (codes "uptime_seconds") (int env.uptime) (
                field (codes "version") (str (codes "0.1.0")) (
                  field (codes "db_size_kb") (int (pos (size_kb size))) (
                    field (codes "leads_count") (int (pos (length s.database.tables.properties)))
                      end)))))))

  unfoldable pub schema_apply : Action K Answer
  schema_apply s =
      let (done, database) = run_migrations env.migrations (apply_schema s.database) in
      (
        (done >>= λ _. ok (success (str (codes "Schema applied.")))),
        record s { database = database },
      )
