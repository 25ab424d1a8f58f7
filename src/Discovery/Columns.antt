-- ===== src/Discovery/Columns.antt =====
-- The CSV formats of src/utils/csv_import.py and their detection in src/agents/discovery.py. A file
-- is the header and the rows that `csv.DictReader` gives; a short row has None for its last columns.
pub mod Formats
use property_management_lead.Common.{
  ℕ, Bool, true, false, not, Option, none, some, List, [], ◌∷◌, map, Text, codes, text_eq, Unicode,
  strip, keep, contains, length, leb, if◌then◌else◌,
}
use property_management_lead.Common.Dict.{Dict, lookup}
use property_management_lead.Common.Result.{Result, ok, raised, other_error, ◌>>=◌}

-- internal field ↦ column header
abbrev pub Mapping : Type 0
Mapping = Dict Text Text

abbrev pub orange_coast_title : Mapping
orange_coast_title =
    (codes "apn", codes "APN")
    ∷ (codes "county", codes "COUNTY")
    ∷ (codes "property_address", codes "SITUS ADDRESS")
    ∷ (codes "property_type", codes "PROPERTY TYPE")
    ∷ (codes "assessed_value", codes "ASSESSED VALUE")
    ∷ (codes "recorded_owner", codes "ASSESSED OWNER")
    ∷ (codes "mailing_address", codes "MAILING ADDRESS")
    ∷ []

abbrev pub crmls : Mapping
crmls =
    (codes "apn", codes "APN/Parcel Number")
    ∷ (codes "county", codes "County")
    ∷ (codes "property_address", codes "Full Address")
    ∷ (codes "property_type", codes "Property Type")
    ∷ (codes "assessed_value", codes "Assessed Value")
    ∷ (codes "recorded_owner", codes "Owner Name")
    ∷ (codes "mailing_address", codes "Owner Mailing Address")
    ∷ []

abbrev pub column_map : List Mapping
column_map = orange_coast_title ∷ crmls ∷ []

-- The elements of a set, each once.
unfoldable pub distinct : List Text → List Text
distinct [] = []
distinct (s ∷ ss) = let rest = distinct ss in if contains rest s then rest else s ∷ rest

abbrev pub Row : Type 0
Row = Dict Text (Option Text)

abbrev pub no_strip : Text
no_strip = codes "'NoneType' object has no attribute 'strip'"

module _ (unicode : Unicode) where
  header_set : List Text → List Text
  header_set headers = map (λ h. unicode.lower (strip unicode.is_space h)) headers

  source_columns : Mapping → List Text
  source_columns mapping = map (λ (target, source). unicode.lower source) mapping

  -- `len(header_set & source_cols)`
  unfoldable pub matches : List Text → Mapping → ℕ
  unfolding header_set source_columns distinct
  matches headers mapping =
      length (keep (λ s. contains (header_set headers) s) (distinct (source_columns mapping)))

  -- The first format with two columns or more.
  unfoldable pub detect_among : List Mapping → List Text → Option Mapping
  unfolding matches
  detect_among [] headers = none
  detect_among (mapping ∷ mappings) headers =
      let rest = detect_among mappings headers in
      if leb 2 (matches headers mapping) then some mapping else rest

  unfoldable pub detect_format : List Text → Option Mapping
  unfolding detect_among
  detect_format headers = detect_among column_map headers

  -- `row.get(source, "").strip()`: None has no `strip`.
  column : Row → Text → Result Text
  column row source = elim (lookup source row) [
    | none ↦ ok []
    | some none ↦ raised other_error no_strip
    | some (some value) ↦ ok (strip unicode.is_space value)
  ]

  unfoldable pub map_row : Mapping → Row → Result Row
  unfolding column
  map_row [] row = ok []
  map_row ((target, source) ∷ mapping) row = column row source >>= λ value.
      map_row mapping row >>= λ rest. ok ((target, some value) ∷ rest)

  unfoldable pub map_rows : Mapping → List Row → Result (List Row)
  unfolding map_row
  map_rows mapping [] = ok []
  map_rows mapping (row ∷ rows) =
      map_row mapping row >>= λ mapped. map_rows mapping rows >>= λ rest. ok (mapped ∷ rest)

  -- An unknown format gives the rows as they are.
  unfoldable pub parse_csv_import : List Text → List Row → Result (List Row)
  unfolding detect_format map_rows
  parse_csv_import headers rows = elim (detect_format headers) [
    | none ↦ ok rows
    | some mapping ↦ map_rows mapping rows
  ]
