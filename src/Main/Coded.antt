-- ===== src/Main/Coded.antt =====
-- The error codes of src/main.py.
use property_management_lead.Common.{
  ◌≡◌, Bool, true, false, [], ◌∷◌, contains, nat_eq, if◌then◌else◌,
}
use property_management_lead.Common.Result.{Result, ok, raised, ◌>>=◌}
use property_management_lead.Common.Value.{ℤ, pos, negsuc}
use property_management_lead.Main.State.{Answer, success, failure}

-- ERR_AUTH, ERR_RATELIMIT, ERR_INTERNAL, ERR_VALIDATION or ERR_UNKNOWN_METHOD
unfoldable pub is_code : ℤ → Bool
unfolding contains
is_code (pos n) = false
is_code (negsuc n) = contains (9999 ∷ 19999 ∷ 39999 ∷ 49999 ∷ 59999 ∷ []) n

abbrev pub IsAnswer : Answer → Type 0
IsAnswer (success result) = Unit
IsAnswer (failure message code) = is_code code ≡ true

-- An error that is answered has one of the codes.
abbrev pub IsCoded : Result Answer → Type 0
IsCoded (ok answer) = IsAnswer answer
IsCoded (raised kind message) = Unit

pub >>=-IsCoded :
    {A : Type 0} (action : Result A) (next : A → Result Answer)
    → ((value : A) → IsCoded (next value))
    → IsCoded (action >>= next)
>>=-IsCoded (ok value) next h = h value
>>=-IsCoded (raised kind message) next h = tt

pub if-IsCoded :
    (b : Bool) (then_ else_ : Result Answer)
    → IsCoded then_
    → IsCoded else_
    → IsCoded (if b then then_ else else_)
if-IsCoded true then_ else_ h h' = h
if-IsCoded false then_ else_ h h' = h'
