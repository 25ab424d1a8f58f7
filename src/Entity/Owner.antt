-- ===== src/Entity/Owner.antt =====
-- `is_entity`, `classify_entity_type` and `unmask_entity` of src/agents/entity_unmasking.py.
pub mod Classified
use property_management_lead.Common.{
  ℕ, ◌≡◌, Bool, true, false, ◌||◌, Option, none, some, List, [], ◌∷◌, ◌++◌, map, any, Text, codes,
  eqb, Unicode, if◌then◌else◌,
}
use property_management_lead.Common.Value.{Value, null, bool, str, Object}
use property_management_lead.Entity.Patterns.{Item, one, optional, Pattern, literal, search}

-- `L\.?L\.?C\.?`
abbrev pub dotted_llc : Pattern
dotted_llc = one b'L' ∷ optional b'.' ∷ one b'L' ∷ optional b'.' ∷ one b'C' ∷ optional b'.' ∷ []

abbrev pub entity_indicators : List Pattern
entity_indicators =
    literal (codes "LLC")
    ∷ dotted_llc
    ∷ (literal (codes "INC") ++ optional b'.' ∷ [])
    ∷ (literal (codes "CORP") ++ optional b'.' ∷ [])
    ∷ literal (codes "CORPORATION")
    ∷ literal (codes "TRUST")
    ∷ literal (codes "LP")
    ∷ literal (codes "LLP")
    ∷ literal (codes "LIMITED")
    ∷ literal (codes "COMPANY")
    ∷ (literal (codes "HOLDING") ++ optional b'S' ∷ [])
    ∷ []

-- `same` is how `re.IGNORECASE` compares a character of the pattern with one of the text.
module _ (unicode : Unicode) where
  unfoldable pub is_entity : (ℕ → ℕ → Bool) → Text → Bool
  is_entity same recorded_owner =
      any (λ pattern. search unicode.is_word same pattern none recorded_owner) entity_indicators

  -- `re.search` of one of these patterns
  unfoldable pub found : List Pattern → Text → Bool
  found patterns owner_upper =
      any (λ pattern. search unicode.is_word eqb pattern none owner_upper) patterns

  abbrev pub llc_patterns : List Pattern
  llc_patterns = literal (codes "LLC") ∷ dotted_llc ∷ []

  abbrev pub corporation_patterns : List Pattern
  corporation_patterns =
      literal (codes "INC") ∷ literal (codes "CORP") ∷ literal (codes "CORPORATION") ∷ []

  abbrev pub partnership_patterns : List Pattern
  partnership_patterns =
      literal (codes "LP") ∷ literal (codes "LLP") ∷ literal (codes "LIMITED PARTNERSHIP") ∷ []

  unfoldable pub classify_entity_type : Text → Text
  unfolding found
  classify_entity_type recorded_owner =
      let owner_upper = unicode.upper recorded_owner in
      if found llc_patterns owner_upper
      then codes "llc"
      else if found corporation_patterns owner_upper
      then codes "corporation"
      else if found (literal (codes "TRUST") ∷ []) owner_upper
      then codes "trust"
      else if found partnership_patterns owner_upper
      then codes "partnership"
      else if found (literal (codes "LIMITED") ∷ []) owner_upper
      then codes "llc"
      else codes "individual"

  -- The last entry but one is set again for an individual.
  unfoldable pub unmask_entity : (ℕ → ℕ → Bool) → Value → Text → Object
  unfolding is_entity classify_entity_type
  unmask_entity same apn recorded_owner =
      let entity_flag = is_entity same recorded_owner in
      (codes "apn", apn)
      ∷ (codes "recorded_owner", str recorded_owner)
      ∷ (codes "is_entity", bool entity_flag)
      ∷ (codes "entity_type", str (classify_entity_type recorded_owner))
      ∷ (codes "needs_sos_lookup", bool entity_flag)
      ∷ (codes "unmasked_principal_name", if entity_flag then null else str recorded_owner)
      ∷ (codes "unmasked_principal_phone", null)
      ∷ []
