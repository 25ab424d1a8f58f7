-- ===== src/Database/Schema.antt =====
-- src/db/schema.py: the tables that are made if they do not exist, and the settings they start with.
use property_management_lead.Common.{
  ℕ, ◌≡◌, refl, ap, ◌∙◌, true, none, some, List, [], ◌∷◌, ◌++◌, All, contains, ◌≢◌, Option-cases,
  Bool-cases, inl, inr, Text, codes, text_eq, nat_eq, if◌then◌else◌, arith,
}
use property_management_lead.Compliance.{DncList}
use property_management_lead.Discovery.Save.{Tables}
use property_management_lead.Captcha.{Sessions}
use property_management_lead.Llm.Factory.{LlmSettings}
use property_management_lead.Common.Dict.{
  Dict, NodupKeys, insert_or_ignore-NodupKeys, lookup, insert_or_ignore, insert_or_ignore_old,
  lookup-insert_or_ignore,
}

-- The tables that the program writes, each by the component that does.
pub record Database : Type 0 where
  pub settings : Dict Text Text
  pub schema_version : List ℕ
  pub llm_settings : List LlmSettings
  pub dnc_list : DncList
  pub tables : Tables
  pub captcha_sessions : Sessions

abbrev pub defaults : List (Text × Text)
defaults =
    (codes "target_county", codes "Orange County")
    ∷ (codes "target_state", codes "CA")
    ∷ (codes "search_radius_miles", codes "25")
    ∷ (codes "default_alpha", codes "0.4")
    ∷ (codes "default_beta", codes "0.4")
    ∷ (codes "default_gamma", codes "0.2")
    ∷ (codes "hubspot_api_key", [])
    ∷ (codes "hubspot_enabled", codes "false")
    ∷ []

-- `conn.executemany("INSERT OR IGNORE …", rows)`
unfoldable pub seed : List (Text × Text) → Dict Text Text → Dict Text Text
seed [] settings = settings
seed ((key, value) ∷ rows) settings = seed rows (insert_or_ignore key value settings)

-- A file without tables.
abbrev pub empty_database : Database
empty_database = record {
  settings = [];
  schema_version = [];
  llm_settings = [];
  dnc_list = [];
  tables = record { properties = []; ownership = []; next_id = 1 };
  captcha_sessions = none;
}

-- `INSERT OR IGNORE INTO schema_version`
unfoldable pub insert_version : ℕ → List ℕ → List ℕ
insert_version version versions =
    if contains versions version then versions else versions ++ version ∷ []

-- `executescript(SCHEMA_SQL)`: a table that is missing is made without rows.
unfoldable pub create_tables : Database → Database
create_tables db = record db { schema_version = insert_version 1 db.schema_version }

unfoldable pub apply_schema : Database → Database
unfolding create_tables seed
apply_schema file =
    let db = create_tables file in record db { settings = seed defaults db.settings }

lookup-seed :
    (key : Text) (rows : List (Text × Text)) (settings : Dict Text Text)
    → lookup key (seed rows settings)
      ≡ elim (lookup key settings) [ none ↦ lookup key rows | some value ↦ some value ]
unfolding seed lookup
lookup-seed key [] settings = ground arith
lookup-seed key ((k, v) ∷ rows) settings =
    lookup-seed key rows (insert_or_ignore k v settings)
    ∙ ground (arith, lookup-insert_or_ignore key k v settings)

-- Seeding changes no setting that is there, and seeding again changes nothing.
seed_done :
    (rows : List (Text × Text)) (settings : Dict Text Text)
    → All (λ (row : Text × Text). lookup row.0 settings ≢ none) rows
    → seed rows settings ≡ settings
unfolding seed
seed_done [] settings h = refl
seed_done ((key, value) ∷ rows) settings (here, there) = elim (Option-cases (lookup key settings)) [
  | inl e ↦ absurd (here e)
  | inr (old, e) ↦
      ap (seed rows) (insert_or_ignore_old key value settings e) ∙ seed_done rows settings there
]

seed-lookup :
    (rows rows' : List (Text × Text)) (settings : Dict Text Text)
    → All (λ (row : Text × Text). lookup row.0 rows' ≢ none) rows
    → All (λ (row : Text × Text). lookup row.0 (seed rows' settings) ≢ none) rows
seed-lookup [] rows' settings h = tt
seed-lookup ((key, value) ∷ rows) rows' settings (here, there) = (
  (λ e. ground (arith, lookup-seed key rows' settings, here, e)),
  seed-lookup rows rows' settings there,
)

contains-append : (xs : List ℕ) (x : ℕ) → contains (xs ++ x ∷ []) x ≡ true
unfolding contains
contains-append [] x = ground arith
contains-append (y ∷ xs) x = ground (arith, contains-append xs x)

insert_version_done :
    (version : ℕ) (versions : List ℕ)
    → insert_version version (insert_version version versions) ≡ insert_version version versions
unfolding insert_version
insert_version_done version versions = elim (Bool-cases (contains versions version)) [
  | inl e ↦ simp e
  | inr e ↦ simp (e, contains-append versions version)
]

defaults-All : All (λ (row : Text × Text). lookup row.0 defaults ≢ none) defaults
unfolding lookup text_eq
defaults-All =
    (λ e. cc, (λ e. cc, (λ e. cc, (λ e. cc, (λ e. cc, (λ e. cc, (λ e. cc, (λ e. cc, tt))))))))

-- Applying the schema keeps each setting that is there and gives the others their default; and
-- applying it once more changes nothing.
pub apply_schema-lookup :
    (db : Database)
    → ((key : Text)
        → lookup key (apply_schema db).settings
          ≡ elim (lookup key db.settings) [ none ↦ lookup key defaults | some value ↦ some value ])
      × (apply_schema (apply_schema db) ≡ apply_schema db)
unfolding apply_schema create_tables
apply_schema-lookup db = (
  λ key. lookup-seed key defaults db.settings,
  (let settings = seed defaults db.settings in
      let versions = insert_version 1 db.schema_version in
      let seeded =
        seed_done defaults settings (seed-lookup defaults defaults db.settings defaults-All) in
      ap
        (λ (s : Dict Text Text). record db {
          settings = s;
          schema_version = insert_version 1 versions;
        })
        seeded
      ∙ ap (λ (v : List ℕ). record db { settings = settings; schema_version = v })
          (insert_version_done 1 db.schema_version)),
)

-- Seeding keeps the keys of the settings apart.
pub seed-NodupKeys :
    (rows : List (Text × Text)) (settings : Dict Text Text)
    → NodupKeys settings
    → NodupKeys (seed rows settings)
unfolding seed
seed-NodupKeys [] settings u = u
seed-NodupKeys ((key, value) ∷ rows) settings u =
    seed-NodupKeys rows _ (insert_or_ignore-NodupKeys key value settings u)
