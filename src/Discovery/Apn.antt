-- ===== src/Discovery/Apn.antt =====
-- `normalize_apn` of src/agents/discovery.py with its patterns: digits, each group of them behind
-- an optional dash.
pub mod Digits
use property_management_lead.Common.{
  ℕ, zero, suc, ◌≡◌, Bool, true, false, ◌&&◌, Option, none, some, List, [], ◌∷◌, ◌++◌, Text, codes,
  text_eq, eqb, Unicode, if◌then◌else◌,
}
use property_management_lead.Common.Dict.{Dict, lookup}

-- `\d` and `-?`
pub data Part : Type 0 where
  digit optional_dash : Part

abbrev pub digits : ℕ → List Part
digits zero = []
digits (suc n) = digit ∷ digits n

-- `\d{3}-?\d{3}-?\d{2}` and `\d{4}-?\d{3}-?\d{3}`
abbrev pub apn_patterns : Dict Text (List Part)
apn_patterns =
    (codes "Orange County", digits 3 ++ optional_dash ∷ (digits 3 ++ optional_dash ∷ digits 2))
    ∷ (
      codes "Los Angeles County",
      digits 4 ++ optional_dash ∷ (digits 3 ++ optional_dash ∷ digits 3),
    )
    ∷ []

abbrev pub cons_match : ℕ → Option Text → Option Text
cons_match c none = none
cons_match c (some text) = some (c ∷ text)

abbrev pub or_else : Option Text → Option Text → Option Text
or_else none other = other
or_else (some text) other = some text

module _ (is_digit : ℕ → Bool) where
  -- The text of a match that starts here; a dash is taken if the rest matches behind it.
  unfoldable pub match_here : List Part → Text → Option Text
  match_here [] s = some []
  match_here (digit ∷ parts) [] = none
  match_here (digit ∷ parts) (c ∷ s) =
      let rest = match_here parts s in if is_digit c then cons_match c rest else none
  match_here (optional_dash ∷ parts) [] = match_here parts []
  match_here (optional_dash ∷ parts) (c ∷ s) =
      let behind = match_here parts s in
      let here = match_here parts (c ∷ s) in
      if eqb c b'-' then or_else (cons_match c behind) here else here

  -- `pattern.search(s)`: the first match.
  unfoldable pub search : List Part → Text → Option Text
  unfolding match_here
  search parts [] = match_here parts []
  search parts (c ∷ s) = or_else (match_here parts (c ∷ s)) (search parts s)

  -- `match.group(0)`, for a county that has a pattern
  unfoldable pub normalize_apn : Text → Text → Option Text
  unfolding search
  normalize_apn address county = elim (lookup county apn_patterns) [
    | none ↦ none
    | some parts ↦ search parts address
  ]
