-- ===== src/Hubspot/Mapping.antt =====
-- `FIELD_MAP` and `map_lead_to_hubspot_properties` of src/utils/hubspot_client/__init__.py.
use property_management_lead.Common.{
  ℕ, zero, suc, map, contains, get_elem?, ◌≢◌, ◌≡◌, refl, Bool, true, false, ◌&&◌, ◌∙◌, not, Option,
  none, some, List, [], ◌∷◌, Text, codes, text_eq, ◌==◌, eq_iff, eq_refl, is_empty, if◌then◌else◌,
  arith, Bool-cases, inl, inr,
}
use property_management_lead.Common.Dict.{
  Dict, lookup, lookup-nil, insert, lookup-insert, NodupKeys, insert-NodupKeys,
}
use property_management_lead.Common.Value.{Value, null, str, Object, get, Runtime}

-- internal key ↦ HubSpot key
abbrev pub field_map : List (Text × Text)
field_map =
    (codes "property_address", codes "address")
    ∷ (codes "recorded_owner", codes "hs_legal_entity_name")
    ∷ (codes "unmasked_principal_name", codes "firstname")
    ∷ (codes "unmasked_principal_phone", codes "phone")
    ∷ (codes "unmasked_principal_email", codes "email")
    ∷ (codes "priority_score", codes "hs_lead_score")
    ∷ (codes "apn", codes "hs_lead_id")
    ∷ (codes "county", codes "hs_city")
    ∷ (codes "listing_status", codes "hs_marketing_status")
    ∷ (codes "is_absentee", codes "hs_lead_status")
    ∷ []

-- `value is not None and value != ""`
unfoldable pub is_given : Value → Bool
is_given null = false
is_given (str s) = not (is_empty s)
is_given value = true

abbrev targets : List (Text × Text) → List Text
targets = map (λ (internal_key, hubspot_key). hubspot_key)

-- No two fields go to one key.
abbrev IsInjective : List (Text × Text) → Type 0
IsInjective [] = Unit
IsInjective ((internal_key, hubspot_key) ∷ fields) =
    (contains (targets fields) hubspot_key ≡ false) × IsInjective fields

field_map-IsInjective : IsInjective field_map
unfolding contains text_eq
field_map-IsInjective =
    (refl, (refl, (refl, (refl, (refl, (refl, (refl, (refl, (refl, (refl, tt))))))))))

target_ne :
    (fields : List (Text × Text)) (i : ℕ) (key target : Text) {internal_key : Text}
    → contains (targets fields) target ≡ false
    → get_elem? fields i ≡ some (internal_key, key)
    → key ≢ target
unfolding contains
target_ne [] i key target h e same = absurd (ground arith)
target_ne ((j, k) ∷ fields) zero key target h e same = ground (arith, eq_iff target k)
target_ne ((j, k) ∷ fields) (suc i) key target h e same =
    target_ne fields i key target (ground arith) e same

module _ (runtime : Runtime) where
  unfoldable pub map_fields : List (Text × Text) → Object → Dict Text Text → Dict Text Text
  map_fields [] lead props = props
  map_fields ((internal_key, hubspot_key) ∷ fields) lead props =
      let value = get lead internal_key null in
      map_fields fields lead
        (if is_given value then insert hubspot_key (runtime.to_str value) props else props)

  unfoldable pub map_lead_to_hubspot_properties : Object → Dict Text Text
  map_lead_to_hubspot_properties lead = map_fields field_map lead []

  -- The property of a HubSpot key: the text of the given value of the last field mapped to it.
  abbrev pub property_of : List (Text × Text) → Object → Text → Option Text → Option Text
  property_of [] lead key found = found
  property_of ((internal_key, hubspot_key) ∷ fields) lead key found = property_of fields lead key (
      if is_given (get lead internal_key null) && key == hubspot_key
      then some (runtime.to_str (get lead internal_key null))
      else found)

  lookup-map_fields :
      (fields : List (Text × Text)) (lead : Object) (props : Dict Text Text) (key : Text)
      → lookup key (map_fields fields lead props) ≡ property_of fields lead key (lookup key props)
  unfolding map_fields
  lookup-map_fields [] lead props key = refl
  lookup-map_fields ((internal, hubspot) ∷ fields) lead props key =
      elim (Bool-cases (is_given (get lead internal null))) [
        | inl given ↦ rw given (
            lookup-map_fields fields lead
              (insert hubspot (runtime.to_str (get lead internal null)) props) key
            ∙ rw lookup-insert)
        | inr absent ↦ rw absent (lookup-map_fields fields lead props key)
      ]

  property_of_absent :
      (fields : List (Text × Text)) (lead : Object) (key : Text) (found : Option Text)
      → contains (targets fields) key ≡ false
      → property_of fields lead key found ≡ found
  unfolding contains
  property_of_absent [] lead key found h = refl
  property_of_absent ((internal, hubspot) ∷ fields) lead key found h =
      ground (arith, property_of_absent fields lead key found)

  property_of_given :
      (fields : List (Text × Text)) (lead : Object) (i : ℕ) {internal hubspot : Text}
      → IsInjective fields
      → get_elem? fields i ≡ some (internal, hubspot)
      → property_of fields lead hubspot none ≡ (
          if is_given (get lead internal null)
          then some (runtime.to_str (get lead internal null))
          else none)
  unfolding contains
  property_of_given [] lead i d e = absurd (ground arith)
  property_of_given ((j, k) ∷ fields) lead zero {internal} {hubspot} (fresh, d) e =
      let same : (j ≡ internal) × (k ≡ hubspot) = (ground arith, ground arith) in
      rw (← same.0, ← same.1, eq_refl)
        (elim (Bool-cases (is_given (get lead j null))) [
          | inl given ↦ rw given (property_of_absent fields lead k _ fresh)
          | inr absent ↦ rw absent (property_of_absent fields lead k _ fresh)
        ])
  property_of_given ((j, k) ∷ fields) lead (suc i) {internal} {hubspot} (fresh, d) e =
      let other : (hubspot == k) ≡ false =
        ground (arith, target_ne fields i hubspot k fresh e, eq_iff hubspot k) in
      ground (arith, other, property_of_given fields lead i d e)

  pub lookup-map_lead_to_hubspot_properties :
      (lead : Object) (i : ℕ) {internal_key hubspot_key : Text}
      → get_elem? field_map i ≡ some (internal_key, hubspot_key)
      → lookup hubspot_key (map_lead_to_hubspot_properties lead) ≡ (
          if is_given (get lead internal_key null)
          then some (runtime.to_str (get lead internal_key null))
          else none)
  unfolding map_lead_to_hubspot_properties
  lookup-map_lead_to_hubspot_properties lead i e =
      lookup-map_fields field_map lead [] _
      ∙ rw lookup-nil (property_of_given field_map lead i field_map-IsInjective e)

  map_fields-NodupKeys :
      (fields : List (Text × Text)) (lead : Object) (props : Dict Text Text)
      → NodupKeys props
      → NodupKeys (map_fields fields lead props)
  unfolding map_fields
  map_fields-NodupKeys [] lead props u = u
  map_fields-NodupKeys ((internal, hubspot) ∷ fields) lead props u =
      elim (Bool-cases (is_given (get lead internal null))) [
        | inl given ↦
            rw given (map_fields-NodupKeys fields lead _ (insert-NodupKeys hubspot _ props u))
        | inr absent ↦ rw absent (map_fields-NodupKeys fields lead props u)
      ]

  pub map_lead-NodupKeys : (lead : Object) → NodupKeys (map_lead_to_hubspot_properties lead)
  unfolding map_lead_to_hubspot_properties
  map_lead-NodupKeys lead = map_fields-NodupKeys field_map lead [] tt
