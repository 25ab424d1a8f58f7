-- ===== src/County/Where.antt =====
-- The `where` clauses of src/scrapers/county_assessor.py: validation and escaping of their inputs.
pub mod Safe
use property_management_lead.Common.{
  ℕ, Bool, true, false, not, ◌&&◌, ◌||◌, List, [], ◌∷◌, ◌++◌, Text, codes, Unicode, strip, is_empty,
  keep, length, leb, ltb, eqb, if◌then◌else◌,
}
use property_management_lead.Common.Quoting.{double}
use property_management_lead.Common.Result.{Result, ok, raised, value_error, ◌>>=◌}

-- `[\x00-\x08\x0b\x0c\x0e-\x1f]`
unfoldable pub is_control : ℕ → Bool
is_control c = leb c 8 || (eqb c 11 || (eqb c 12 || (leb 14 c && leb c 31)))

unfoldable pub escape_sql_literal : Text → Text
unfolding is_control
escape_sql_literal value = double 39 (keep (λ c. not (is_control c)) value)

-- `[\w\s\-/,.#]`
pub address_char : Unicode → ℕ → Bool
address_char unicode c =
    unicode.is_word c
    || (unicode.is_space c
        || (eqb c b'-' || (eqb c b'/' || (eqb c b',' || (eqb c b'.' || eqb c b'#')))))

-- `[\d\-]`
unfoldable pub apn_char : Unicode → ℕ → Bool
apn_char unicode c = unicode.is_digit c || eqb c b'-'

module _ (unicode : Unicode) where
  unfoldable pub validate_address : Text → Result Text
  unfolding address_char
  validate_address address =
      let sanitized = strip unicode.is_space (keep (address_char unicode) address) in
      if is_empty sanitized || ltb (length sanitized) 3
      then raised value_error (codes "Invalid address: '" ++ (address ++ codes "'"))
      else ok sanitized

  unfoldable pub validate_apn : Text → Result Text
  unfolding apn_char
  validate_apn apn =
      let sanitized = strip unicode.is_space (keep (apn_char unicode) apn) in
      if is_empty sanitized
      then raised value_error (codes "Invalid APN: '" ++ (apn ++ codes "'"))
      else ok sanitized

  unfoldable pub address_clause : Text → Result Text
  address_clause address = do
    safe ← validate_address address
    ok (codes "UPPER(SITEADDR) LIKE '%" ++ (escape_sql_literal safe ++ codes "%'"))

  unfoldable pub apn_clause : Text → Result Text
  apn_clause apn = do
    safe ← validate_apn apn
    ok (codes "APN = '" ++ (escape_sql_literal safe ++ codes "'"))
