-- ===== src/Main/Sound.antt =====
-- Well-formed tables of the sidecar, for src/main.py.
use property_management_lead.Common.{ℕ, ◌≡◌, All, text_eq, Unicode}
use property_management_lead.Common.Dict.{NodupKeys}
use property_management_lead.Captcha.Sessions.{UniqueSessions}
use property_management_lead.Compliance.Listed
use property_management_lead.Database.Schema.{Database}
use property_management_lead.Database.Migrations.{Migration}
use property_management_lead.Discovery.Save.Integrity.{IsConsistent}
use property_management_lead.Main.Handlers.Llm.Unique
use property_management_lead.Main.State.{Env, Sidecar, Answer, Action}

pub record IsSound (unicode : Unicode) (db : Database) : Type 0 where
  pub settings : NodupKeys db.settings
  pub dnc_list : Listed.IsTable unicode db.dnc_list
  pub tables : IsConsistent db.tables
  pub llm_settings : Unique.IsTable db.llm_settings
  pub sessions : UniqueSessions db.captcha_sessions

-- A migration that keeps the tables well-formed, also where it raises.
abbrev pub KeepsSound : Unicode → Migration → Type 0
KeepsSound unicode migrate = (db : Database) → IsSound unicode db → IsSound unicode (migrate db).1

-- What is outside of a command, with such migrations only, and one set of Unicode tables.
abbrev pub IsFair : {K : Type 0} → Unicode → Env K → Type 0
IsFair unicode env =
    (env.runtime.unicode ≡ unicode)
    × All (λ (m : ℕ × Migration). KeepsSound unicode m.1) env.migrations

-- An action that keeps the tables well-formed, also where it raises.
abbrev pub Keeps : {K : Type 0} → Unicode → Action K Answer → Type 0
Keeps {K} unicode action =
    (s : Sidecar K) → IsSound unicode s.database → IsSound unicode (action s).1.database
