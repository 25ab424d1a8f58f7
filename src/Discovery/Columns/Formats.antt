-- ===== src/Discovery/Columns/Formats.antt =====
-- What `parse_csv_import` of src/agents/discovery.py returns for rows of a known format.
use property_management_lead.Common.{
  ℕ, suc, ◌≡◌, refl, ap, Bool, true, false, ◌||◌, Option, none, some, List, [], ◌∷◌, any, length,
  Text, text_eq, Unicode, strip, arith,
}
use property_management_lead.Common.Dict.{lookup}
use property_management_lead.Common.Result.{Result, ok, raised, other_error, >>=-eq-ok}
use property_management_lead.Discovery.Columns.{
  Mapping, Row, column, map_row, map_rows, detect_format, parse_csv_import, no_strip,
}

module _ (unicode : Unicode) where
  -- The text under a column, stripped; the empty text where the column is missing.
  abbrev pub column_text : Option (Option Text) → Option Text
  column_text none = some []
  column_text (some none) = none
  column_text (some (some value)) = some (strip unicode.is_space value)

  column-eq-ok :
      (row : Row) (source : Text) {value : Text}
      → column unicode row source ≡ ok value
      → column_text (lookup source row) ≡ some value
  unfolding column
  column-eq-ok row source h = ground arith

  -- Where mapping a row returns, the mapped row has, under each internal name, the stripped text
  -- of its column (the empty text where the column is missing), and no other names.
  pub lookup-map_row :
      (mapping : Mapping) (row : Row) (field : Text) {mapped : Row}
      → map_row unicode mapping row ≡ ok mapped
      → lookup field mapped ≡ elim (lookup field mapping) [
        | none ↦ none
        | some source ↦ some (column_text (lookup source row))
      ]
  unfolding map_row lookup
  lookup-map_row [] row field h = ground arith
  lookup-map_row ((target, source) ∷ mapping) row field h =
      let (value, p, q) = >>=-eq-ok (column unicode row source) _ h in
      let (rest, p', q') = >>=-eq-ok (map_row unicode mapping row) _ q in
      ground (arith, lookup-map_row mapping row field p', column-eq-ok row source p)

  -- The row has None under a column of the format.
  abbrev is_gap : Option (Option Text) → Bool
  is_gap (some none) = true
  is_gap cell = false

  abbrev pub is_short : Mapping → Row → Bool
  is_short [] row = false
  is_short ((target, source) ∷ mapping) row = is_gap (lookup source row) || is_short mapping row

  -- What is not short is mapped, to something of this number of parts; a short one raises.
  abbrev pub Maps {ℓ} : {A : Type ℓ} → Bool → ℕ → Result (List A) → Type ℓ
  Maps false n mapped = (values : List _) × (mapped ≡ ok values) × (length values ≡ n)
  Maps true n mapped = mapped ≡ raised other_error no_strip

  column-cell :
      (row : Row) (source : Text) (cell : Option (Option Text))
      → lookup source row ≡ cell
      → column unicode row source ≡ elim cell [
        | none ↦ ok []
        | some stored ↦ elim stored [
          | none ↦ raised other_error no_strip
          | some value ↦ ok (strip unicode.is_space value)
        ]
      ]
  unfolding column
  column-cell row source none e = rw (column, e) refl
  column-cell row source (some none) e = rw (column, e) refl
  column-cell row source (some (some value)) e = rw (column, e) refl

  map_row-cons :
      (target source : Text) (mapping : Mapping) (row : Row) (is_rest_short : Bool) (value : Text)
      → column unicode row source ≡ ok value
      → Maps is_rest_short (length mapping) (map_row unicode mapping row)
      → Maps is_rest_short (suc (length mapping)) (map_row unicode ((target, source) ∷ mapping) row)
  unfolding map_row
  map_row-cons target source mapping row false value e (rest, e', n) =
      ((target, some value) ∷ rest, rw (e, e') refl, ap suc n)
  map_row-cons target source mapping row true value e e' = rw (e, e') refl

  map_row-gap :
      (target source : Text) (mapping : Mapping) (row : Row)
      → column unicode row source ≡ raised other_error no_strip
      → map_row unicode ((target, source) ∷ mapping) row ≡ raised other_error no_strip
  unfolding map_row
  map_row-gap target source mapping row e = rw e refl

  map_row-cell :
      (target source : Text) (mapping : Mapping) (row : Row) (cell : Option (Option Text))
      → lookup source row ≡ cell
      → Maps (is_short mapping row) (length mapping) (map_row unicode mapping row)
      → Maps
          (is_gap cell || is_short mapping row)
          (suc (length mapping))
          (map_row unicode ((target, source) ∷ mapping) row)
  map_row-cell target source mapping row none e h =
      map_row-cons target source mapping row (is_short mapping row) []
        (column-cell row source none e) h
  map_row-cell target source mapping row (some none) e h =
      map_row-gap target source mapping row (column-cell row source (some none) e)
  map_row-cell target source mapping row (some (some value)) e h =
      map_row-cons target source mapping row (is_short mapping row) (strip unicode.is_space value)
        (column-cell row source (some (some value)) e) h

  map_row-Maps :
      (mapping : Mapping) (row : Row)
      → Maps (is_short mapping row) (length mapping) (map_row unicode mapping row)
  unfolding map_row
  map_row-Maps [] row = ([], refl, refl)
  map_row-Maps ((target, source) ∷ mapping) row =
      map_row-cell target source mapping row (lookup source row) refl (map_row-Maps mapping row)

  map_rows-cons :
      (mapping : Mapping) (row : Row) (rows : List Row) (is_first_short is_rest_short : Bool)
      → Maps is_first_short (length mapping) (map_row unicode mapping row)
      → Maps is_rest_short (length rows) (map_rows unicode mapping rows)
      → Maps
          (is_first_short || is_rest_short)
          (suc (length rows))
          (map_rows unicode mapping (row ∷ rows))
  unfolding map_rows
  map_rows-cons mapping row rows true b e e' = rw e refl
  map_rows-cons mapping row rows false true (mapped, e, n) e' = rw (e, e') refl
  map_rows-cons mapping row rows false false (mapped, e, n) (rest, e', m) =
      (mapped ∷ rest, rw (e, e') refl, ap suc m)

  map_rows-Maps :
      (mapping : Mapping) (rows : List Row)
      → Maps (any (is_short mapping) rows) (length rows) (map_rows unicode mapping rows)
  unfolding map_rows any
  map_rows-Maps mapping [] = ([], refl, refl)
  map_rows-Maps mapping (row ∷ rows) =
      map_rows-cons mapping row rows (is_short mapping row) (any (is_short mapping) rows)
        (map_row-Maps mapping row) (map_rows-Maps mapping rows)

  -- The import of a file of a known format raises AttributeError if some row is short, that is, has
  -- None under a column of the format, wherever it stands; and otherwise it returns as many records
  -- as there are rows.
  pub parse_csv_import_short :
      (headers : List Text) (rows : List Row) {mapping : Mapping}
      → detect_format unicode headers ≡ some mapping
      → Maps (any (is_short mapping) rows) (length rows) (parse_csv_import unicode headers rows)
  unfolding parse_csv_import
  parse_csv_import_short headers rows {mapping} known =
      rw (parse_csv_import, known) (map_rows-Maps mapping rows)
