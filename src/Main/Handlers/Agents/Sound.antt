-- ===== src/Main/Handlers/Agents/Sound.antt =====
-- `discovery.import_csv` of src/main.py keeps the tables well-formed.
use property_management_lead.Common.{Option, none, some, List, text_eq, Bool-cases, inl, inr}
use property_management_lead.Common.Result.{Result, ok, raised}
use property_management_lead.Common.Value.{Value, truthy}
use property_management_lead.Main.Sound.{Keeps}
use property_management_lead.Main.State.{Env}
use property_management_lead.Discovery.Columns.{Row}
use property_management_lead.Discovery.Save.Integrity.{save_records-IsConsistent}
use property_management_lead.Main.Handlers.Agents.{save_file, import_read, import_path, import_csv}

module _ {K : Type 0} (env : Env K) where
  import_read-Keeps :
      (read : Result (Option (List Row))) → Keeps env.runtime.unicode (import_read env read)
  unfolding import_read save_file
  import_read-Keeps (raised kind message) s h = h
  import_read-Keeps (ok none) s h = h
  import_read-Keeps (ok (some records)) s h = record {
    settings = h.settings;
    dnc_list = h.dnc_list;
    tables = save_records-IsConsistent env.runtime records 0 s.database.tables h.tables;
    llm_settings = h.llm_settings;
    sessions = h.sessions;
  }

  import_path-Keeps :
      (file_path : Result Value) → Keeps env.runtime.unicode (import_path env file_path)
  unfolding import_path
  import_path-Keeps (raised kind message) s h = h
  import_path-Keeps (ok file_path) s h = elim (Bool-cases (truthy file_path)) [
    | inl e ↦ rw (e, import_read) (import_read-Keeps _ s h)
    | inr e ↦ rw e h
  ]

  pub import_csv-Keeps : (params : Value) → Keeps env.runtime.unicode (import_csv env params)
  unfolding import_csv
  import_csv-Keeps params s h = import_path-Keeps _ s h
