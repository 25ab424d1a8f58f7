-- ===== src/Compliance/Numbers.antt =====
-- The normal form of phone numbers (`normalise_phone` of src/compliance/dnc_checker.py).
use property_management_lead.Common.{
  starts_with, ◌≡◌, true, some, [], ◌++◌, Text, Unicode, length, keep, all, all-keep, keep_full,
  keep-skip, all-drop, arith, codes,
}
use property_management_lead.Compliance.{normalise_phone, strip_country_code}

pub record IsUsNumber (unicode : Unicode) (number : Text) : Type 0 where
  pub digits : all unicode.is_digit number ≡ true
  pub ten : length number ≡ 10

module _ (unicode : Unicode) where
  strip_country_code-digits :
      (digits : Text)
      → all unicode.is_digit digits ≡ true
      → all unicode.is_digit (strip_country_code digits) ≡ true
  unfolding strip_country_code
  strip_country_code-digits digits h =
      ground (arith, all-drop unicode.is_digit 1 digits h, all-drop unicode.is_digit 2 digits h)

  strip_country_code_ten : (digits : Text) → length digits ≡ 10 → strip_country_code digits ≡ digits
  unfolding strip_country_code
  strip_country_code_ten digits h = rw h

  -- Whatever is accepted is ten decimal digits, with no formatting left.
  pub normalise_phone-IsUsNumber :
      (phone : Text) {number : Text}
      → normalise_phone unicode phone ≡ some number
      → IsUsNumber unicode number
  unfolding normalise_phone
  normalise_phone-IsUsNumber phone {number} h = ground (
    arith,
    strip_country_code-digits (keep unicode.is_digit phone) (all-keep unicode.is_digit phone),
  )

  -- A number that is in normal form is left as it is.
  pub normalise_phone_fixed :
      (number : Text) → IsUsNumber unicode number → normalise_phone unicode number ≡ some number
  unfolding normalise_phone
  normalise_phone_fixed number n =
      ground
        (arith, keep_full unicode.is_digit number n.digits, strip_country_code_ten number n.ten)

  -- Text without decimal digits makes no difference to the normal form, wherever it stands.
  pub normalise_phone_separator :
      (before separator after : Text)
      → keep unicode.is_digit separator ≡ []
      → normalise_phone unicode (before ++ (separator ++ after))
        ≡ normalise_phone unicode (before ++ after)
  unfolding normalise_phone
  normalise_phone_separator before separator after h =
      rw (keep-skip unicode.is_digit before separator after h)

  -- A number of ten decimal digits behind the country code 1 has that number as its normal form,
  -- where `1` is a decimal digit.
  pub normalise_phone_country :
      (number : Text)
      → IsUsNumber unicode number
      → unicode.is_digit b'1' ≡ true
      → normalise_phone unicode (codes "1" ++ number) ≡ some number
  unfolding normalise_phone starts_with
  normalise_phone_country number n one =
      ground (arith, keep_full unicode.is_digit number n.digits, n.ten)
