-- ===== src/County/Where/Safe.antt =====
-- The `where` clauses of src/scrapers/county_assessor.py cannot be broken out of.
use mathlib.Core.List.{append_assoc}
use property_management_lead.Common.{
  ◌≡◌, refl, not, true, false, [], ◌∷◌, ◌++◌, some, Text, codes, Unicode, arith, keep, all,
  all-keep, starts_with, all-strip,
}
use property_management_lead.Common.Quoting.{double, read_quoted, read_quoted-double, double-append}
use property_management_lead.Common.Result.{ok}
use property_management_lead.County.Where.{
  is_control, escape_sql_literal, apn_char, validate_address, validate_apn, address_clause,
  apn_clause,
}

-- What is left of a value without its control characters.
abbrev pub printable : Text → Text
printable = keep (λ c. not (is_control c))

pattern-double :
    (s : Text)
    → codes "%" ++ (double 39 s ++ codes "%'")
      ≡ double 39 (codes "%" ++ (s ++ codes "%")) ++ 39 ∷ []
unfolding double
pattern-double s = simp (double-append, append_assoc)

module _ (unicode : Unicode) where
  -- For an address that is accepted, the clause is one literal: reading it up to its closing quote
  -- consumes the whole clause and gives the pattern around the printable part of the accepted
  -- address.
  pub read_quoted-address_clause :
      (address : Text) {safe : Text}
      → validate_address unicode address ≡ ok safe
      → (literal : Text) × (address_clause unicode address
          ≡ ok (codes "UPPER(SITEADDR) LIKE '" ++ literal))
        × (read_quoted 39 false literal ≡ some (codes "%" ++ (printable safe ++ codes "%"), []))
  unfolding address_clause escape_sql_literal
  read_quoted-address_clause address {safe} h = (
    codes "%" ++ (escape_sql_literal safe ++ codes "%'"),
    rw h,
    rw (pattern-double (printable safe)) (
        read_quoted-double 39 (codes "%" ++ (printable safe ++ codes "%")) []
          (unfold starts_with in refl)),
  )

  apn_allowed :
      (apn : Text) {safe : Text}
      → validate_apn unicode apn ≡ ok safe
      → all (apn_char unicode) safe ≡ true
  unfolding validate_apn
  apn_allowed apn h = ground (
    arith,
    all-strip unicode.is_space (apn_char unicode) (keep (apn_char unicode) apn)
        (all-keep (apn_char unicode) apn),
  )

  -- For an APN that is accepted, the clause is one literal of its printable part, and every
  -- character of the accepted APN is a decimal digit or a dash.
  pub read_quoted-apn_clause :
      (apn : Text) {safe : Text}
      → validate_apn unicode apn ≡ ok safe
      → (literal : Text) × (apn_clause unicode apn ≡ ok (codes "APN = '" ++ literal))
        × (read_quoted 39 false literal ≡ some (printable safe, []))
        × (all (apn_char unicode) safe ≡ true)
  unfolding apn_clause escape_sql_literal
  read_quoted-apn_clause apn {safe} h = (
    escape_sql_literal safe ++ codes "'",
    rw h,
    read_quoted-double 39 (printable safe) [] (unfold starts_with in refl),
    apn_allowed apn h,
  )
