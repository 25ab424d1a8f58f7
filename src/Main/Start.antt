-- ===== src/Main/Start.antt =====
-- The whole of `main` in src/main.py: what it does before its loop, and the loop.
pub mod Sound
use property_management_lead.Common.{ℕ, ◌+◌, Option, none, some, List, [], ◌∷◌, Text}
use property_management_lead.Common.Result.{Result, ok, raised}
use property_management_lead.Common.Value.{Value}
use property_management_lead.Credentials.{migrate_from_sqlite}
use property_management_lead.Database.Schema.{Database, apply_schema}
use property_management_lead.Database.Migrations.{run_migrations}
use property_management_lead.Main.Dispatch.{Served, run}
use property_management_lead.Main.State.{Env, Sidecar}

module _ {K : Type 0} (env : Env K) where
  -- The keys leave the table for the keychain, unless a migration raised.
  migrated : Result (Unit {0}) → Sidecar K → Result ℕ × Sidecar K
  migrated (raised kind message) s = (raised kind message, s)
  migrated (ok done) s =
      let ((rows, count), w) =
        migrate_from_sqlite env.codec env.keyring s.database.llm_settings s.world in
      (ok count, record s { database = record s.database { llm_settings = rows }; world = w })

  -- The database and the credentials, before the first line is read: a migration that raises ends
  -- the program.
  unfoldable pub start : Sidecar K → Result ℕ × Sidecar K
  unfolding migrated
  start s =
      let (done, database) = run_migrations env.migrations (apply_schema s.database) in
      migrated done (record s { database = database })

  served : Result ℕ × Sidecar K → List (Env K × Text) → Served K
  served (raised kind message, s) lines = (([], raised kind message), s)
  served (ok count, s) lines = run lines s

  -- The answers, how the program ends, and the state it leaves.
  unfoldable pub main : List (Env K × Text) → Sidecar K → Served K
  unfolding start served
  main lines s = served (start s) lines
