-- ===== src/Database/Migrations.antt =====
-- src/db/migrations.py. A migration is a function on the database that may raise; the mapping
-- `MIGRATIONS`, which holds none so far, is an argument.
pub mod Again
pub mod Keeps
use property_management_lead.Common.{
  ℕ, zero, suc, ◌<◌, ◌≤◌, ◌≡◌, refl, ap, ◌∙◌, max, Bool, true, false, List, [], ◌∷◌, ◌++◌, map,
  keep, All, contains, ltb, leb, eqb, if◌then◌else◌, arith, Bool-cases, inl, inr, Option, none,
  some,
}
use property_management_lead.Common.Dict.{Dict}
use property_management_lead.Common.Result.{Result, ok, raised, Result-cases}
use property_management_lead.Database.Schema.{Database, insert_version}

-- What a migration does: SQLite keeps what was executed before an exception.
abbrev pub Migration : Type 0
Migration = Database → Result (Unit {0}) × Database

-- `SELECT version … ORDER BY version DESC LIMIT 1`, or 0
unfoldable pub get_current_version : List ℕ → ℕ
get_current_version [] = 0
get_current_version (version ∷ versions) = max version (get_current_version versions)

insert_sorted : ℕ × Migration → List (ℕ × Migration) → List (ℕ × Migration)
insert_sorted (version, migrate) [] = (version, migrate) ∷ []
insert_sorted (version, migrate) ((version', migrate') ∷ rest) =
    let inserted = insert_sorted (version, migrate) rest in
    if ltb version version'
    then (version, migrate) ∷ (version', migrate') ∷ rest
    else (version', migrate') ∷ inserted

-- `sorted(MIGRATIONS)`, each version with its function
unfoldable pub sorted : List (ℕ × Migration) → List (ℕ × Migration)
unfolding insert_sorted
sorted [] = []
sorted ((version, migrate) ∷ rest) = insert_sorted (version, migrate) (sorted rest)

abbrev pub Outcome : Type 0
Outcome = Result (Unit {0}) × Database

-- What follows an action that did not raise.
pub then_run : Outcome → (Database → Outcome) → Outcome
then_run (ok done, db) next = next db
then_run (raised kind message, db) next = (raised kind message, db)

-- One version: the migration, and the row with its number.
pub apply_migration : ℕ → Migration → Database → Outcome
unfolding then_run
apply_migration version migrate db =
    then_run (migrate db)
      λ db'. (ok tt, record db' { schema_version = insert_version version db'.schema_version })

-- The loop over the sorted versions.
unfoldable pub apply_pending : ℕ → List (ℕ × Migration) → Database → Outcome
unfolding apply_migration then_run
apply_pending current [] db = (ok tt, db)
apply_pending current ((version, migrate) ∷ rest) db =
    if ltb current version
    then then_run (apply_migration version migrate db) (apply_pending current rest)
    else apply_pending current rest db

unfoldable pub run_migrations : List (ℕ × Migration) → Database → Outcome
unfolding apply_pending sorted get_current_version
run_migrations migrations db =
    apply_pending (get_current_version db.schema_version) (sorted migrations) db
