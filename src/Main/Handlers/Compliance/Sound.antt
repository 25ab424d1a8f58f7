-- ===== src/Main/Handlers/Compliance/Sound.antt =====
-- `compliance.add_dnc` and `compliance.remove_dnc` of src/main.py keep the tables well-formed.
use property_management_lead.Common.{
  Option, none, Text, text_eq, is_empty, arith, Bool-cases, inl, inr,
}
use property_management_lead.Common.Result.{Result, ok, raised}
use property_management_lead.Common.Value.{Value, str, truthy}
use property_management_lead.Main.Sound.{IsSound, Keeps}
use property_management_lead.Main.State.{Env, Sidecar, sql_text}
use property_management_lead.Compliance.{DncList, execute_fault}
use property_management_lead.Compliance.Listed
use property_management_lead.Compliance.Listed.{add_dnc_number-IsTable, remove_dnc_number-IsTable}
use property_management_lead.Main.Handlers.Compliance.{
  with_dnc_list, add_bound, add_phone, add_read, add_dnc, remove_phone, remove_read, remove_dnc,
}

module _ {K : Type 0} (env : Env K) where
  with_dnc_list-IsSound :
      (s : Sidecar K) (table : DncList)
      → IsSound env.runtime.unicode s.database
      → Listed.IsTable env.runtime.unicode table
      → IsSound env.runtime.unicode (with_dnc_list s table).database
  unfolding with_dnc_list
  with_dnc_list-IsSound s table h t = record {
    settings = h.settings;
    dnc_list = t;
    tables = h.tables;
    llm_settings = h.llm_settings;
    sessions = h.sessions;
  }

  add_bound-IsTable :
      (phone : Text) (source : Result (Option Text)) (table : DncList)
      → Listed.IsTable env.runtime.unicode table
      → Listed.IsTable env.runtime.unicode (add_bound env phone source table).1
  unfolding add_bound
  add_bound-IsTable phone (ok source) table t =
      add_dnc_number-IsTable env.runtime.unicode table phone source env.dnc_fault t
  add_bound-IsTable phone (raised kind message) table t =
      add_dnc_number-IsTable env.runtime.unicode table phone none (execute_fault message) t

  add_phone-Keeps : (phone source : Value) → Keeps env.runtime.unicode (add_phone env phone source)
  unfolding add_phone
  add_phone-Keeps (str phone) source s h = elim (Bool-cases (is_empty phone)) [
    | inl e ↦ rw e h
    | inr e ↦ rw e (
        with_dnc_list-IsSound s _ h
          (add_bound-IsTable phone (sql_text env source) s.database.dnc_list h.dnc_list))
  ]
  add_phone-Keeps value source s h = elim (Bool-cases (truthy value)) [
    | inl e ↦ ground (arith, h)
    | inr e ↦ ground (arith, h)
  ]

  add_read-Keeps : (read : Result (Value × Value)) → Keeps env.runtime.unicode (add_read env read)
  unfolding add_read
  add_read-Keeps (ok (phone, source)) s h = add_phone-Keeps phone source s h
  add_read-Keeps (raised kind message) s h = h

  pub add_dnc-Keeps : (params : Value) → Keeps env.runtime.unicode (add_dnc env params)
  unfolding add_dnc
  add_dnc-Keeps params s h = add_read-Keeps _ s h

  remove_phone-Keeps : (phone : Value) → Keeps env.runtime.unicode (remove_phone env phone)
  unfolding remove_phone
  remove_phone-Keeps (str phone) s h = elim (Bool-cases (is_empty phone)) [
    | inl e ↦ rw e h
    | inr e ↦ rw e (
        with_dnc_list-IsSound s _ h (
          remove_dnc_number-IsTable env.runtime.unicode s.database.dnc_list phone env.dnc_fault
            h.dnc_list))
  ]
  remove_phone-Keeps value s h = ground (arith, h)

  remove_read-Keeps : (read : Result Value) → Keeps env.runtime.unicode (remove_read env read)
  unfolding remove_read
  remove_read-Keeps (ok phone) s h = remove_phone-Keeps phone s h
  remove_read-Keeps (raised kind message) s h = h

  pub remove_dnc-Keeps : (params : Value) → Keeps env.runtime.unicode (remove_dnc env params)
  unfolding remove_dnc
  remove_dnc-Keeps params s h = remove_read-Keeps _ s h
