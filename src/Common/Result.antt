-- ===== src/Common/Result.antt =====
-- Python exceptions as values: the class that a handler tells apart, and `str(exc)`. A
-- JSONDecodeError is a ValueError too.
use property_management_lead.Common.{◌⊎◌, inl, inr, Text, ◌≡◌, refl}

pub data Kind : Type 0 where
  key_error value_error type_error runtime_error overflow_error database_error : Kind
  hubspot_auth_error hubspot_rate_limit_error hubspot_validation_error hubspot_error : Kind
  json_decode_error other_error : Kind

pub data Result {ℓ} (A : Type ℓ) : Type ℓ where
  ok : A → Result A
  raised : Kind → Text → Result A

infixl 5 ◌>>=◌
abbrev pub ◌>>=◌ {κ ℓ} : {B : Type κ} {A : Type ℓ} → Result A → (A → Result B) → Result B
ok value >>= next = next value
raised kind message >>= next = raised kind message

-- What both parts of a sequence gave, if it raised nothing.
pub >>=-eq-ok {κ ℓ} :
    {B : Type κ} {result : B} {A : Type ℓ} (action : Result A) (next : A → Result B)
    → (action >>= next) ≡ ok result
    → (value : A) × (action ≡ ok value) × (next value ≡ ok result)
>>=-eq-ok (ok value) next e = (value, refl, e)
>>=-eq-ok (raised kind message) next e = cc

pub ok_injective {ℓ} : {A : Type ℓ} {a b : A} → ok a ≡ ok b → a ≡ b
ok_injective e = cc

pub Result-cases {ℓ} :
    {A : Type ℓ} (m : Result A)
    → ((a : A) × (m ≡ ok a)) ⊎ ((k : Kind) × (message : Text) × (m ≡ raised k message))
Result-cases (ok a) = inl (a, refl)
Result-cases (raised k message) = inr (k, message, refl)
