-- ===== src/Tests/Discovery.antt =====
-- Runs of src/agents/discovery.py.
use property_management_lead.Common.{
  ◌≡◌, refl, ℕ, true, any, Text, contains, not, has_infix, length, arith, none, some, List, [], ◌∷◌,
  codes, text_eq, keep, strip,
}
use property_management_lead.Common.Dict.{lookup}
use property_management_lead.Discovery.Apn.{Part, apn_patterns, normalize_apn}
use property_management_lead.Discovery.Apn.Digits.{apn_char, count, validate_apn-normalize_apn}
use property_management_lead.County.Where.{validate_apn}
use property_management_lead.Common.Result.{ok}
use property_management_lead.Discovery.Columns.{
  Mapping, Row, map_row, orange_coast_title, distinct, matches, detect_among, detect_format,
  parse_csv_import,
}
use property_management_lead.Discovery.Columns.Formats.{
  column_text, lookup-map_row, is_short, Maps, parse_csv_import_short,
}
use property_management_lead.Discovery.Save.{Tables, save_to_database}
use property_management_lead.Discovery.Save.Integrity.{IsConsistent, save_to_database-IsConsistent}
use property_management_lead.Tests.{ascii, python}

abbrev mapping : Mapping
mapping = (codes "apn", codes "APN") ∷ (codes "county", codes "COUNTY") ∷ []

lookup-map_row_example :
    lookup (codes "apn") ((codes "apn", some (codes "123")) ∷ (codes "county", some []) ∷ [])
    ≡ some (column_text ascii (lookup (codes "APN") ((codes "APN", some (codes " 123 ")) ∷ [])))
unfolding map_row lookup text_eq strip
lookup-map_row_example =
    lookup-map_row ascii mapping ((codes "APN", some (codes " 123 ")) ∷ []) (codes "apn") refl

abbrev headers : List Text
headers = codes "APN" ∷ codes "COUNTY" ∷ codes "SITUS ADDRESS" ∷ []

abbrev read_rows : List Row
read_rows =
    ((codes "APN", some (codes "123")) ∷ (codes "COUNTY", some (codes "Kern")) ∷ [])
    ∷ ((codes "APN", some (codes "124")) ∷ (codes "COUNTY", none) ∷ [])
    ∷ []

parse_csv_import_short_example :
    Maps ascii
      (any (is_short ascii orange_coast_title) read_rows)
      (length read_rows)
      (parse_csv_import ascii headers read_rows)
unfolding detect_format detect_among matches distinct strip keep contains text_eq
parse_csv_import_short_example = parse_csv_import_short ascii headers read_rows refl

abbrev empty : Tables
empty = record { properties = []; ownership = []; next_id = 1 }

abbrev parcels : List Row
parcels =
    ((codes "apn", some (codes "123")) ∷ (codes "recorded_owner", some (codes "Acme LLC")) ∷ [])
    ∷ ((codes "apn", some (codes "123")) ∷ (codes "recorded_owner", some (codes "Acme LLC")) ∷ [])
    ∷ []

save_to_database-IsConsistent_example :
    (db' : Tables) × ((save_to_database python parcels (some empty)).1 ≡ some db')
    × IsConsistent db'
save_to_database-IsConsistent_example =
    save_to_database-IsConsistent python parcels empty (record { nodup = tt; owned = tt })

apn_space : (c : ℕ) → apn_char ascii.is_digit c ≡ true → not (ascii.is_space c) ≡ true
apn_space c h = ground (arith, h)

validate_apn-normalize_apn_example :
    (has_infix (codes "APN 123-456-78, Irvine") (codes "123-456-78") ≡ true)
    × ((parts : List Part) × (lookup (codes "Orange County") apn_patterns ≡ some parts)
        × (length (keep ascii.is_digit (codes "123-456-78")) ≡ count parts))
    × (validate_apn ascii (codes "123-456-78") ≡ ok (codes "123-456-78"))
unfolding normalize_apn lookup text_eq
validate_apn-normalize_apn_example =
    validate_apn-normalize_apn ascii (codes "APN 123-456-78, Irvine") (codes "Orange County") refl
      apn_space refl
