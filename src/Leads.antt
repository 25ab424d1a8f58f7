-- ===== src/Leads.antt =====
-- src/agents/output_synthesis.py: deduplication of leads and their export as text.
-- A lead is a dict of JSON values. `json.dumps(rows, indent=2, default=str)` is an argument.
pub mod Dedup
pub mod Export
use mathlib.Core.List.{flat_map}
use property_management_lead.Common.{
  ◌≡◌, Bool, true, false, ◌&&◌, ◌||◌, Option, none, some, List, [], ◌∷◌, ◌++◌, map, Text, codes,
  text_eq, ◌==◌, contains, any, eqb, is_empty, if◌then◌else◌,
}
use property_management_lead.Common.Dict.{Dict, lookup, insert}
use property_management_lead.Common.Quoting.{double}
use property_management_lead.Common.Result.{Result, ok, raised, type_error, value_error, ◌>>=◌}
use property_management_lead.Common.Value.{
  Value, null, str, float, Object, truthy, get, Runtime, Key, key_eq, key_of,
}

abbrev pub lead_fields : List Text
lead_fields =
    codes "apn"
    ∷ codes "county"
    ∷ codes "property_address"
    ∷ codes "recorded_owner"
    ∷ codes "mailing_address"
    ∷ codes "is_absentee"
    ∷ codes "entity_type"
    ∷ codes "unmasked_principal_name"
    ∷ codes "unmasked_principal_phone"
    ∷ codes "unmasked_principal_email"
    ∷ codes "listing_status"
    ∷ codes "priority_score"
    ∷ []

-- The values of a dict, in order.
abbrev pub values : {A B : Type 0} → Dict A B → List B
values = map (λ (k, v). v)

module _ (runtime : Runtime) where
  -- `seen[apn] = lead`, under the test that the APN is truthy.
  unfoldable pub remember : Dict Key Object → Object → Result (Dict Key Object)
  remember seen lead =
      let apn = get lead (codes "apn") null in
      if truthy apn
      then elim (key_of runtime apn) [
        | none ↦ raised type_error (codes "unhashable type")
        | some key ↦ ok (insert key lead seen)
      ]
      else ok seen

  unfoldable pub remember_all : Dict Key Object → List Object → Result (Dict Key Object)
  unfolding remember
  remember_all seen [] = ok seen
  remember_all seen (lead ∷ leads) = remember seen lead >>= λ seen'. remember_all seen' leads

  unfoldable pub deduplicate : List Object → Result (List Object)
  unfolding remember_all
  deduplicate leads = do seen ← remember_all [] leads; ok (values seen)

-- A row of `format_lead_export`: the standard fields, the empty text where one is missing.
unfoldable pub normalise : Object → Object
normalise lead = map (λ name. (name, get lead name (str []))) lead_fields

-- `csv.writer`: a text is quoted if it holds a comma, a quote or a line break, and then its quotes
-- are doubled.
pub needs_quotes : Text → Bool
needs_quotes = any (λ c. eqb c b',' || (eqb c b'"' || (eqb c 13 || eqb c 10)))

csv_field : Text → Text
unfolding needs_quotes double
csv_field s = if needs_quotes s then b'"' ∷ (double b'"' s ++ (b'"' ∷ [])) else s

-- None is written as the empty text.
csv_text : Runtime → Value → Text
csv_text runtime null = []
csv_text runtime value = runtime.to_str value

csv_fields : List Text → Text
unfolding csv_field
csv_fields [] = []
csv_fields (s ∷ []) = csv_field s
csv_fields (s ∷ fields) = csv_field s ++ (b',' ∷ csv_fields fields)

csv_line : List Text → Text
unfolding csv_fields
csv_line fields = csv_fields fields ++ (13 ∷ 10 ∷ [])

abbrev hubspot_fields : List Text
hubspot_fields =
    codes "Property Address"
    ∷ codes "Owner Name"
    ∷ codes "Owner Phone"
    ∷ codes "Owner Email"
    ∷ codes "Lead Score"
    ∷ codes "Notes"
    ∷ []

-- `a or b`
abbrev or_else : Value → Value → Value
or_else a b = if truthy a then a else b

module _ (runtime : Runtime) where
  to_csv : List Object → Text
  unfolding csv_line csv_text
  to_csv rows =
      csv_line lead_fields
      ++ flat_map (λ row. csv_line (map (λ name. csv_text runtime (get row name null)) lead_fields))
          rows

  render : (List Object → Text) → List Object → Text → Result Text
  unfolding to_csv
  render dumps rows export_format =
      if export_format == codes "csv"
      then ok (to_csv rows)
      else if export_format == codes "json"
      then ok (dumps rows)
      else raised value_error (codes "Unsupported export format: " ++ export_format)

  unfoldable pub format_lead_export : (List Object → Text) → List Object → Text → Result Text
  unfolding render deduplicate normalise
  format_lead_export dumps leads export_format = do
    cleaned ← deduplicate runtime leads
    render dumps (map normalise cleaned) export_format

  -- The f-string "APN: … | County: …".
  notes : Object → Text
  notes lead =
      codes "APN: "
      ++ (runtime.to_str (get lead (codes "apn") (str []))
          ++ (codes " | County: " ++ runtime.to_str (get lead (codes "county") (str []))))

  hubspot_row : Object → List Text
  unfolding notes csv_text
  hubspot_row lead =
      csv_text runtime (get lead (codes "property_address") (str []))
      ∷ csv_text runtime (
          or_else (get lead (codes "unmasked_principal_name") null)
            (get lead (codes "recorded_owner") (str [])))
      ∷ csv_text runtime (get lead (codes "unmasked_principal_phone") (str []))
      ∷ csv_text runtime (get lead (codes "unmasked_principal_email") (str []))
      ∷ csv_text runtime (get lead (codes "priority_score") (float (codes "0.0")))
      ∷ notes lead
      ∷ []

  unfoldable pub format_hubspot_import : List Object → Result Text
  unfolding hubspot_row deduplicate csv_line
  format_hubspot_import leads = do
    cleaned ← deduplicate runtime leads
    ok (csv_line hubspot_fields ++ flat_map (λ lead. csv_line (hubspot_row lead)) cleaned)
