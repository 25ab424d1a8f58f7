-- ===== src/Tests/Compliance.antt =====
-- Runs of src/compliance/dnc_checker.py.
use property_management_lead.Common.{
  ◌≡◌, refl, true, ◌||◌, ◌&&◌, none, some, [], ◌∷◌, codes, text_eq, if◌then◌else◌, starts_with,
  keep,
}
use property_management_lead.Common.Dict.{lookup}
use property_management_lead.Compliance.{
  default_config, DncList, no_fault, strip_country_code, normalise_phone, check_dnc, add_dnc_number,
  remove_dnc_number,
}
use property_management_lead.Compliance.Listed.{
  is_number, IsTable, check_dnc-add_dnc_number, check_dnc-remove_dnc_number, add_dnc_number-IsTable,
}
use property_management_lead.Tests.{ascii}

abbrev listed : DncList
listed = (codes "7145550123", some (codes "manual")) ∷ []

check_dnc-add_dnc_number_example :
    check_dnc ascii
      (codes "1-714-555-0199")
      (some default_config)
      (some (add_dnc_number ascii listed (codes "714 555 0199") (some (codes "manual")) no_fault).1)
    ≡ (check_dnc ascii (codes "1-714-555-0199") (some default_config) (some listed)
        || (true
            && is_number (normalise_phone ascii (codes "1-714-555-0199")) (codes "7145550199")))
unfolding normalise_phone strip_country_code starts_with keep
check_dnc-add_dnc_number_example =
    check_dnc-add_dnc_number ascii (codes "714 555 0199") (some (codes "manual")) listed
      (codes "1-714-555-0199") default_config refl

check_dnc-remove_dnc_number_example :
    check_dnc ascii
      (codes "7145550123")
      (some default_config)
      (some (remove_dnc_number ascii listed (codes "(714) 555-0123") no_fault).1)
    ≡ (if is_number (normalise_phone ascii (codes "7145550123")) (codes "7145550123")
        then check_dnc ascii (codes "7145550123") (some default_config) none
        else check_dnc ascii (codes "7145550123") (some default_config) (some listed))
unfolding normalise_phone strip_country_code starts_with keep
check_dnc-remove_dnc_number_example =
    check_dnc-remove_dnc_number ascii (codes "(714) 555-0123") listed (codes "7145550123")
      default_config refl

empty-IsTable : IsTable ascii []
unfolding lookup
empty-IsTable = record { nodup = tt; numbers = λ phone source h. cc }

listed-IsTable :
    IsTable ascii
      (add_dnc_number ascii [] (codes "714 555 0199") (some (codes "manual")) no_fault).1
listed-IsTable =
    add_dnc_number-IsTable ascii [] (codes "714 555 0199") (some (codes "manual")) no_fault
      empty-IsTable
