-- ===== src/Database/Migrations/Keeps.antt =====
-- What every migration keeps, a run of src/db/migrations.py keeps.
use property_management_lead.Common.{ℕ, List, [], ◌∷◌, All, ltb, Bool-cases, inl, inr}
use property_management_lead.Common.Result.{ok, raised}
use property_management_lead.Database.Schema.{Database}
use property_management_lead.Database.Migrations.{
  Migration, Outcome, then_run, insert_sorted, sorted, apply_migration, apply_pending,
  run_migrations,
}

module _ (P : Database → Type 0)
    (versions : (db : Database) (v : List ℕ) → P db → P (record db { schema_version = v })) where
  Kept : List (ℕ × Migration) → Type 0
  Kept migrations = All (λ (m : ℕ × Migration). (db : Database) → P db → P (m.1 db).1) migrations

  insert_sorted-Kept :
      (version : ℕ) (migrate : Migration) (migrations : List (ℕ × Migration))
      → ((db : Database) → P db → P (migrate db).1)
      → Kept migrations
      → Kept (insert_sorted (version, migrate) migrations)
  unfolding insert_sorted Kept
  insert_sorted-Kept version migrate [] h k = (h, tt)
  insert_sorted-Kept version migrate ((v, m) ∷ rest) h (k, ks) = elim (Bool-cases (ltb version v)) [
    | inl e ↦ rw e (h, (k, ks))
    | inr e ↦ rw e (k, insert_sorted-Kept version migrate rest h ks)
  ]

  sorted-Kept : (migrations : List (ℕ × Migration)) → Kept migrations → Kept (sorted migrations)
  unfolding sorted Kept
  sorted-Kept [] k = tt
  sorted-Kept ((version, migrate) ∷ rest) (h, k) =
      insert_sorted-Kept version migrate (sorted rest) h (sorted-Kept rest k)

  then_run-kept :
      (outcome : Outcome) (next : Database → Outcome)
      → P outcome.1
      → ((db : Database) → P db → P (next db).1)
      → P (then_run outcome next).1
  unfolding then_run
  then_run-kept (ok done, db) next h k = k db h
  then_run-kept (raised kind message, db) next h k = h

  apply_pending-kept :
      (current : ℕ) (migrations : List (ℕ × Migration)) (db : Database)
      → Kept migrations
      → P db
      → P (apply_pending current migrations db).1
  unfolding apply_pending apply_migration Kept
  apply_pending-kept current [] db k h = h
  apply_pending-kept current ((version, migrate) ∷ rest) db (k, ks) h =
      elim (Bool-cases (ltb current version)) [
        | inl e ↦ rw e (
            then_run-kept (apply_migration version migrate db) (apply_pending current rest)
              (then_run-kept (migrate db) _ (k db h) (λ db' h'. versions db' _ h'))
              (λ db' h'. apply_pending-kept current rest db' ks h'))
        | inr e ↦ rw e (apply_pending-kept current rest db ks h)
      ]

  pub run_migrations-Kept :
      (migrations : List (ℕ × Migration)) (db : Database)
      → All (λ (m : ℕ × Migration). (db : Database) → P db → P (m.1 db).1) migrations
      → P db
      → P (run_migrations migrations db).1
  unfolding run_migrations Kept
  run_migrations-Kept migrations db k h =
      apply_pending-kept _ (sorted migrations) db (sorted-Kept migrations k) h
