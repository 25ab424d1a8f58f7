-- ===== src/Tests/Database.antt =====
-- Runs of src/db.
use property_management_lead.Common.{◌≡◌, refl, none, some, [], ◌∷◌, Text, codes, text_eq}
use property_management_lead.Common.Dict.{lookup}
use property_management_lead.Common.Result.{ok}
use property_management_lead.Database.Schema.{
  Database, empty_database, defaults, apply_schema, apply_schema-lookup, insert_version,
}
use property_management_lead.Database.Migrations.{
  Migration, run_migrations, sorted, apply_pending, get_current_version,
}
use property_management_lead.Database.Migrations.Again.{run_migrations_again}

abbrev set_up : Database
set_up = record empty_database { settings = (codes "target_state", codes "NV") ∷ [] }

apply_schema-lookup_example :
    ((key : Text)
      → lookup key (apply_schema set_up).settings ≡ elim (lookup key set_up.settings) [
        | none ↦ lookup key defaults
        | some value ↦ some value
      ])
    × (apply_schema (apply_schema set_up) ≡ apply_schema set_up)
apply_schema-lookup_example = apply_schema-lookup set_up

-- A migration that adds a setting.
abbrev add_setting : Migration
add_setting db = (ok tt, record db { settings = (codes "new", codes "1") ∷ db.settings })

abbrev migrated : Database
migrated = (run_migrations ((2, add_setting) ∷ []) empty_database).1

run_migrations_again_example : run_migrations ((2, add_setting) ∷ []) migrated ≡ (ok tt, migrated)
unfolding run_migrations sorted apply_pending insert_version get_current_version
run_migrations_again_example =
    run_migrations_again ((2, add_setting) ∷ []) empty_database ((λ db. refl), tt) refl
