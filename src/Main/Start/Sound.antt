-- ===== src/Main/Start/Sound.antt =====
-- src/main.py from its start to the end of its input.
use property_management_lead.Common.{
  ℕ, ◌≡◌, refl, subst, ◌∙◌, Option, List, [], ◌∷◌, All, any, all, Text, Unicode,
}
use property_management_lead.Common.Result.{Result, ok, raised}
use property_management_lead.Credentials.{World, migrate_from_sqlite}
use property_management_lead.Database.Migrations.{Migration}
use property_management_lead.Llm.Factory.{LlmSettings}
use property_management_lead.Main.Dispatch.Sound.{run-IsSound}
use property_management_lead.Main.Handlers.Llm.{is_provider, same_provider}
use property_management_lead.Main.Handlers.Llm.Unique.{Unique}
use property_management_lead.Main.Handlers.System.{schema_apply}
use property_management_lead.Main.Handlers.System.Sound.{schema_apply-Keeps}
use property_management_lead.Main.Sound.{IsSound, IsFair, KeepsSound}
use property_management_lead.Main.State.{Env, Sidecar}
use property_management_lead.Main.Start.{migrated, start, served, main}

module _ {K : Type 0} (env : Env K) where
  any-migrate :
      (name : Option Text) (rows : List LlmSettings) (w : World K)
      → any (same_provider name) (migrate_from_sqlite env.codec env.keyring rows w).0.0
        ≡ any (same_provider name) rows
  unfolding migrate_from_sqlite any same_provider
  any-migrate name [] w = refl
  any-migrate name (row ∷ rows) w = rw (any-migrate name rows) refl

  all-migrate :
      (rows : List LlmSettings) (w : World K)
      → all (λ row. is_provider row.provider) (migrate_from_sqlite env.codec env.keyring rows w).0.0
        ≡ all (λ row. is_provider row.provider) rows
  unfolding migrate_from_sqlite all
  all-migrate [] w = refl
  all-migrate (row ∷ rows) w = rw (all-migrate rows) refl

  migrate-Unique :
      (rows : List LlmSettings) (w : World K)
      → Unique rows
      → Unique (migrate_from_sqlite env.codec env.keyring rows w).0.0
  unfolding migrate_from_sqlite
  migrate-Unique [] w u = tt
  migrate-Unique (row ∷ rows) w (fresh, u) =
      (any-migrate row.provider rows _ ∙ fresh, migrate-Unique rows _ u)

  migrated-IsSound :
      (done : Result (Unit {0})) (s : Sidecar K)
      → IsSound env.runtime.unicode s.database
      → IsSound env.runtime.unicode (migrated env done s).1.database
  unfolding migrated
  migrated-IsSound (raised kind message) s h = h
  migrated-IsSound (ok done) s h = record {
    settings = h.settings;
    dnc_list = h.dnc_list;
    tables = h.tables;
    llm_settings = record {
      checked = all-migrate s.database.llm_settings s.world ∙ h.llm_settings.checked;
      unique = migrate-Unique s.database.llm_settings s.world h.llm_settings.unique;
    };
    sessions = h.sessions;
  }

  start-IsSound :
      All (λ (m : ℕ × Migration). KeepsSound env.runtime.unicode m.1) env.migrations
      → (s : Sidecar K) → IsSound env.runtime.unicode s.database
      → IsSound env.runtime.unicode (start env s).1.database
  unfolding start schema_apply
  start-IsSound migrations s h = migrated-IsSound _ _ (schema_apply-Keeps env migrations s h)

  served-IsSound :
      (unicode : Unicode) (begun : Result ℕ × Sidecar K) (lines : List (Env K × Text))
      → All (λ (line : Env K × Text). IsFair unicode line.0) lines
      → IsSound unicode begun.1.database
      → IsSound unicode (served env begun lines).1.database
  unfolding served
  served-IsSound unicode (raised kind message, s) lines fair h = h
  served-IsSound unicode (ok count, s) lines fair h = run-IsSound unicode lines s fair h

-- The program, from its start on a well-formed database to the end of its input, also where a
-- migration raises and ends it: whatever lines are read, and whatever is met outside meanwhile, the
-- tables stay well-formed: no setting, session or provider twice, only providers that the schema
-- allows, a Do-Not-Call list of normal numbers each listed once, and properties and owners that fit
-- together; as long as the migrations keep them so and Python's tables of characters stay the same.
pub main-IsSound :
    {K : Type 0} (unicode : Unicode) (env : Env K) (lines : List (Env K × Text)) (s : Sidecar K)
    → IsFair unicode env
    → All (λ (line : Env K × Text). IsFair unicode line.0) lines
    → IsSound unicode s.database
    → IsSound unicode (main env lines s).1.database
unfolding main
main-IsSound {K} unicode env lines s (same, migrations) fair h =
    served-IsSound env unicode (start env s) lines fair (
      subst
        (λ u.
          All (λ (m : ℕ × Migration). KeepsSound u m.1) env.migrations
          → IsSound u s.database
          → IsSound u (start env s).1.database)
        same (λ m. start-IsSound env m s) migrations h)
