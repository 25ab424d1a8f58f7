-- ===== src/Database/Migrations/Again.antt =====
-- A second run of src/db/migrations.py.
use property_management_lead.Common.{
  ℕ, ◌≤◌, ◌≡◌, refl, sym, ap, subst, ◌∙◌, max, true, false, List, [], ◌∷◌, ◌++◌, All, contains, ltb,
  eq_iff, nat_eq, arith, Bool-cases, inl, inr,
}
use property_management_lead.Common.Result.{ok, raised}
use property_management_lead.Database.Schema.{Database, insert_version}
use property_management_lead.Database.Migrations.{
  Migration, Outcome, then_run, get_current_version, sorted, apply_migration, apply_pending,
  run_migrations,
}

-- A migration that leaves the table of versions alone.
abbrev pub KeepsVersion : Migration → Type 0
KeepsVersion migrate = (db : Database) → (migrate db).1.schema_version ≡ db.schema_version

-- No version is above the bound.
abbrev pub Within : ℕ → List (ℕ × Migration) → Type 0
Within bound migrations = All (λ (m : ℕ × Migration). m.0 ≤ bound) migrations

le-get_current_version :
    (version : ℕ) (versions : List ℕ)
    → contains versions version ≡ true
    → version ≤ get_current_version versions
unfolding contains get_current_version
le-get_current_version version [] h = cc
le-get_current_version version (v ∷ versions) h =
    ground (arith, le-get_current_version version versions, eq_iff version v)

get_current_version-append :
    (versions : List ℕ) (version : ℕ)
    → get_current_version (versions ++ version ∷ []) ≡ max (get_current_version versions) version
unfolding get_current_version
get_current_version-append [] version = omega arith
get_current_version-append (v ∷ versions) version =
    omega (arith, get_current_version-append versions version)

get_current_version-insert_version :
    (version : ℕ) (versions : List ℕ)
    → get_current_version (insert_version version versions)
      ≡ max (get_current_version versions) version
unfolding insert_version
get_current_version-insert_version version versions =
    elim (Bool-cases (contains versions version)) [
      | inl e ↦ rw e (ground (arith, le-get_current_version version versions e))
      | inr e ↦ rw e (get_current_version-append versions version)
    ]

apply_pending_none :
    (current : ℕ) (migrations : List (ℕ × Migration)) (db : Database)
    → Within current migrations
    → apply_pending current migrations db ≡ (ok tt, db)
unfolding apply_pending
apply_pending_none current [] db h = refl
apply_pending_none current ((version, migrate) ∷ rest) db (here, there) =
    ground (arith, apply_pending_none current rest db there)

Within-more :
    (m n : ℕ) (migrations : List (ℕ × Migration))
    → m ≤ n
    → Within m migrations
    → Within n migrations
Within-more m n [] h all = tt
Within-more m n ((version, migrate) ∷ rest) h (here, there) =
    (omega arith, Within-more m n rest h there)

then_run-eq-ok :
    (outcome : Outcome) (next : Database → Outcome) {db' : Database}
    → then_run outcome next ≡ (ok tt, db')
    → (db : Database) × (outcome ≡ (ok tt, db)) × (next db ≡ (ok tt, db'))
unfolding then_run
then_run-eq-ok (ok done, db) next e = (db, refl, e)
then_run-eq-ok (raised kind message, db) next e = cc

-- What the version becomes with one migration.
apply_migration-version :
    (version : ℕ) (migrate : Migration) (db : Database) {db' : Database}
    → KeepsVersion migrate
    → apply_migration version migrate db ≡ (ok tt, db')
    → get_current_version db'.schema_version ≡ max (get_current_version db.schema_version) version
unfolding apply_migration
apply_migration-version version migrate db {db'} keep e =
    let (between, ran, recorded) = then_run-eq-ok (migrate db) _ e in
    let versions : insert_version version between.schema_version ≡ db'.schema_version =
      ap (λ (o : Outcome). o.1.schema_version) recorded in
    let kept : db.schema_version ≡ between.schema_version =
      sym (keep db) ∙ ap (λ (o : Outcome). o.1.schema_version) ran in
    ap get_current_version (sym versions)
    ∙ ap (λ v. get_current_version (insert_version version v)) (sym kept)
    ∙ get_current_version-insert_version version db.schema_version

module _ (current version : ℕ) (migrate : Migration) (rest : List (ℕ × Migration))
    (db : Database) where
  step_pending :
      ltb current version ≡ true
      → then_run (apply_migration version migrate db) (apply_pending current rest)
        ≡ apply_pending current ((version, migrate) ∷ rest) db
  unfolding apply_pending
  step_pending h = rw h refl

  step_past :
      ltb current version ≡ false
      → apply_pending current rest db ≡ apply_pending current ((version, migrate) ∷ rest) db
  unfolding apply_pending
  step_past h = rw h refl

-- After a run that returns, the version of the table is at least what it was, and at least that of
-- every migration.
apply_pending-Within :
    (current : ℕ) (migrations : List (ℕ × Migration)) (db : Database) {db' : Database}
    → All (λ (m : ℕ × Migration). KeepsVersion m.1) migrations
    → current ≤ get_current_version db.schema_version
    → apply_pending current migrations db ≡ (ok tt, db')
    → (get_current_version db.schema_version ≤ get_current_version db'.schema_version)
      × Within (get_current_version db'.schema_version) migrations
unfolding apply_pending
apply_pending-Within current [] db {db'} keeps h e =
    let same : db ≡ db' = ap (λ (o : Outcome). o.1) e in
    (
      subst
          (λ (d : Database).
            get_current_version db.schema_version ≤ get_current_version d.schema_version)
          same (omega arith),
      tt,
    )
apply_pending-Within current ((version, migrate) ∷ rest) db {db'} (keep, keeps) h e =
    elim (Bool-cases (ltb current version)) [
      | inl pending ↦
          let run : then_run (apply_migration version migrate db) (apply_pending current rest)
              ≡ (ok tt, db') =
            step_pending current version migrate rest db pending ∙ e in
          let (between, applied, others) =
            then_run-eq-ok (apply_migration version migrate db) _ run in
          let grown = apply_migration-version version migrate db keep applied in
          let (more, there) =
            apply_pending-Within current rest between keeps (omega (arith, grown, h)) others in
          (omega (arith, grown, more), (omega (arith, grown, more), there))
      | inr past ↦
          let run : apply_pending current rest db ≡ (ok tt, db') =
            step_past current version migrate rest db past ∙ e in
          let (more, there) = apply_pending-Within current rest db keeps h run in
          (more, (ground (arith, more), there))
    ]

-- Where no migration touches the table of versions itself: after a run that returned, another one
-- applies nothing and returns with the same database.
pub run_migrations_again :
    (migrations : List (ℕ × Migration)) (db : Database) {db' : Database}
    → All (λ (m : ℕ × Migration). KeepsVersion m.1) (sorted migrations)
    → run_migrations migrations db ≡ (ok tt, db')
    → run_migrations migrations db' ≡ (ok tt, db')
unfolding run_migrations
run_migrations_again migrations db {db'} keeps e =
    apply_pending_none (get_current_version db'.schema_version) (sorted migrations) db'
      (apply_pending-Within (get_current_version db.schema_version) (sorted migrations) db keeps
        (omega arith) e).1
