-- ===== src/Compliance/Listed.antt =====
-- The internal list: `add_dnc_number` and `remove_dnc_number` seen through `check_dnc`
-- (src/compliance/dnc_checker.py).
use property_management_lead.Common.{
  ◌≡◌, Bool, false, not, ◌&&◌, ◌||◌, Option, none, some, Text, Unicode, ◌==◌, eq_iff, text_eq,
  arith, if◌then◌else◌, Option-cases, inl, inr, Bool-cases, subst, sym,
}
use property_management_lead.Common.Dict.{
  lookup, insert_or_ignore, erase, lookup-insert_or_ignore, lookup-erase, NodupKeys,
  insert_or_ignore-NodupKeys, erase-NodupKeys,
}
use property_management_lead.Compliance.{
  DncConfig, DncList, Fault, no_fault, execute_fault, commit_fault, normalise_phone, check_dnc,
  add_dnc_number, remove_dnc_number, is_listed, write_entry, delete_entry,
}
use property_management_lead.Compliance.Numbers.{IsUsNumber, normalise_phone-IsUsNumber}

-- `phone` has the normal form `number`.
abbrev pub is_number : Option Text → Text → Bool
is_number none number = false
is_number (some phone) number = phone == number

is_listed-insert :
    (number : Text) (source : Option Text) (table : DncList) (phone : Text)
    → is_listed (some (insert_or_ignore number source table)) phone
      ≡ (is_listed (some table) phone || phone == number)
unfolding is_listed
is_listed-insert number source table phone =
    ground (arith, lookup-insert_or_ignore phone number source table)

is_listed-erase :
    (number : Text) (table : DncList) (phone : Text)
    → is_listed (some (erase number table)) phone
      ≡ (not (phone == number) && is_listed (some table) phone)
unfolding is_listed
is_listed-erase number table phone = ground (arith, lookup-erase phone number table)

module _ (unicode : Unicode) where
  -- After a phone that has a normal form is added, without a fault of SQLite, exactly the phones
  -- of that normal form are blocked that were not before, and only while checking is enabled.
  pub check_dnc-add_dnc_number :
      (phone : Text) (source : Option Text) (table : DncList) (query : Text) (config : DncConfig)
      {number : Text}
      → normalise_phone unicode phone ≡ some number
      → check_dnc unicode query
          (some config)
          (some (add_dnc_number unicode table phone source no_fault).1)
        ≡ (check_dnc unicode query (some config) (some table)
            || (config.enabled && is_number (normalise_phone unicode query) number))
  unfolding check_dnc add_dnc_number
  check_dnc-add_dnc_number phone source table query config {number} h =
      elim (Option-cases (normalise_phone unicode query)) [
        | inl e ↦ ground arith
        | inr (q, e) ↦ ground (arith, is_listed-insert number source table q)
      ]

  -- After a phone that has a normal form is removed, without a fault of SQLite, the phones of that
  -- normal form are judged as without a list, and all others as before.
  pub check_dnc-remove_dnc_number :
      (phone : Text) (table : DncList) (query : Text) (config : DncConfig) {number : Text}
      → normalise_phone unicode phone ≡ some number
      → check_dnc unicode query
          (some config)
          (some (remove_dnc_number unicode table phone no_fault).1)
        ≡ (if is_number (normalise_phone unicode query) number
            then check_dnc unicode query (some config) none
            else check_dnc unicode query (some config) (some table))
  unfolding check_dnc remove_dnc_number
  check_dnc-remove_dnc_number phone table query config {number} h =
      elim (Option-cases (normalise_phone unicode query)) [
        | inl e ↦ ground arith
        | inr (q, e) ↦ ground (arith, is_listed-erase number table q)
      ]

  -- Every listed phone is a normalised number, and no phone is listed twice.
  pub record IsTable (table : DncList) : Type 0 where
    pub nodup : NodupKeys table
    pub numbers :
        (phone : Text) (source : Option Text)
        → lookup phone table ≡ some source
        → IsUsNumber unicode phone

  insert-IsTable :
      (table : DncList) (number : Text) (source : Option Text)
      → IsUsNumber unicode number
      → IsTable table
      → IsTable (insert_or_ignore number source table)
  insert-IsTable table number source n t = record {
    nodup = insert_or_ignore-NodupKeys number source table t.nodup;
    numbers = λ phone s h. elim (Bool-cases (phone == number)) [
      | inl same ↦ subst (IsUsNumber unicode) (sym ((eq_iff phone number).0 same)) n
      | inr other ↦
          t.numbers phone s (ground (arith, lookup-insert_or_ignore phone number source table))
    ];
  }

  erase-IsTable : (table : DncList) (number : Text) → IsTable table → IsTable (erase number table)
  erase-IsTable table number t = record {
    nodup = erase-NodupKeys number table t.nodup;
    numbers = λ phone s h. t.numbers phone s (ground (arith, lookup-erase phone number table));
  }

  write_entry-IsTable :
      (table : DncList) (number : Text) (source : Option Text) (fault : Fault)
      → IsUsNumber unicode number
      → IsTable table
      → IsTable (write_entry table number source fault).1
  unfolding write_entry
  write_entry-IsTable table number source no_fault n t = insert-IsTable table number source n t
  write_entry-IsTable table number source (execute_fault m) n t = t
  write_entry-IsTable table number source (commit_fault m) n t =
      insert-IsTable table number source n t

  delete_entry-IsTable :
      (table : DncList) (number : Text) (fault : Fault)
      → IsTable table
      → IsTable (delete_entry table number fault).1
  unfolding delete_entry
  delete_entry-IsTable table number no_fault t = erase-IsTable table number t
  delete_entry-IsTable table number (execute_fault m) t = t
  delete_entry-IsTable table number (commit_fault m) t = erase-IsTable table number t

  -- Adding keeps the table well-formed, whether or not SQLite raises.
  pub add_dnc_number-IsTable :
      (table : DncList) (phone : Text) (source : Option Text) (fault : Fault)
      → IsTable table
      → IsTable (add_dnc_number unicode table phone source fault).1
  unfolding add_dnc_number
  add_dnc_number-IsTable table phone source fault t =
      elim (Option-cases (normalise_phone unicode phone)) [
        | inl e ↦ rw (e, add_dnc_number) t
        | inr (number, e) ↦
            rw (e, add_dnc_number)
              (write_entry-IsTable table number source fault
                (normalise_phone-IsUsNumber unicode phone e) t)
      ]

  -- Removing keeps the table well-formed, whether or not SQLite raises.
  pub remove_dnc_number-IsTable :
      (table : DncList) (phone : Text) (fault : Fault)
      → IsTable table
      → IsTable (remove_dnc_number unicode table phone fault).1
  unfolding remove_dnc_number
  remove_dnc_number-IsTable table phone fault t =
      elim (Option-cases (normalise_phone unicode phone)) [
        | inl e ↦ rw (e, remove_dnc_number) t
        | inr (number, e) ↦ rw (e, remove_dnc_number) (delete_entry-IsTable table number fault t)
      ]
