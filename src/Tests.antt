-- ===== src/Tests.antt =====
-- Python's library on ASCII, for runs at concrete inputs.
mod Compliance
mod RateLimiter
mod Hubspot
mod Leads
mod County
mod Discovery
mod Codec
mod Captcha
mod Credentials
mod Router
mod Llm
mod Logging
mod Database
mod Entity
mod Main
use property_management_lead.Common.{
  ℕ, Bool, true, false, ◌&&◌, ◌||◌, Option, none, some, Text, codes, Unicode, leb, eqb, map,
  if◌then◌else◌, ◌+◌, ◌-◌, ◌≡◌, refl, is_empty, [], ◌∷◌,
}
use property_management_lead.Common.Value.{
  Value, null, bool, int, float, str, array, object, truthy, Runtime,
}

abbrev pub between : ℕ → ℕ → ℕ → Bool
between low high c = leb low c && leb c high

abbrev pub ascii : Unicode
ascii = record {
  is_digit = between b'0' b'9';
  is_space = λ c. eqb c b' ' || between 9 13 c;
  is_word =
      λ c. between b'0' b'9' c || (between b'A' b'Z' c || (between b'a' b'z' c || eqb c b'_'));
  lower = λ s. map (λ c. if between b'A' b'Z' c then c + 32 else c) s;
  upper = λ s. map (λ c. if between b'a' b'z' c then c - 32 else c) s;
}

abbrev text_of : Value → Text
text_of (str s) = s
text_of value = codes "value"

abbrev pub python : Runtime
python = record {
  unicode = ascii;
  to_str = text_of;
  float_int = λ repr. none;
  parse_int = λ s. none;
}

pub text_of_truthy : (value : Value) → truthy value ≡ true → is_empty (python.to_str value) ≡ false
unfolding truthy
text_of_truthy (str (c ∷ s)) h = refl
text_of_truthy (str []) h = cc
text_of_truthy null h = cc
text_of_truthy (bool b) h = refl
text_of_truthy (int z) h = refl
text_of_truthy (float repr) h = refl
text_of_truthy (array items) h = refl
text_of_truthy (object fields) h = refl
