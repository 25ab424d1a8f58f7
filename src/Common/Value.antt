-- ===== src/Common/Value.antt =====
-- The values of `json.loads` and of `dict[str, Any]`, as far as the program looks into them.
-- A float is its `repr`; `Runtime` holds what the model takes from Python itself.
use property_management_lead.Common.{
  ℕ, zero, Bool, true, false, not, ◌||◌, ◌≡◌, ◌↔◌, Option, none, some, List, [], ◌∷◌, Text, codes,
  text_eq, Eq, ◌==◌, eq_iff, is_empty, eqb, Unicode, arith,
}
use property_management_lead.Common.Dict.{Dict, lookup}

-- `negsuc n` is -(n + 1).
pub data ℤ : Type 0 where
  pos negsuc : ℕ → ℤ

mutual
  pub data Value : Type 0 where
    null : Value
    bool : Bool → Value
    int : ℤ → Value
    float str : Text → Value
    array : Items → Value
    object : Fields → Value

  pub data Items : Type 0 where
    nil : Items
    cons : Value → Items → Items

  pub data Fields : Type 0 where
    end : Fields
    field : Text → Value → Fields → Fields

abbrev pub Object : Type 0
Object = Dict Text Value

unfoldable pub entries : Fields → Object
entries end = []
entries (field key value rest) = (key, value) ∷ entries rest

unfoldable pub elements : Items → List Value
elements nil = []
elements (cons value rest) = value ∷ elements rest

-- `bool(value)`
unfoldable pub truthy : Value → Bool
truthy null = false
truthy (bool b) = b
truthy (int (pos zero)) = false
truthy (int z) = true
truthy (float repr) = not (repr == codes "0.0" || repr == codes "-0.0")
truthy (str s) = not (is_empty s)
truthy (array nil) = false
truthy (array (cons value rest)) = true
truthy (object end) = false
truthy (object (field key value rest)) = true

-- `d.get(key, default)`
unfoldable pub get : Object → Text → Value → Value
get d key default = elim (lookup key d) [ none ↦ default | some value ↦ value ]

-- What the model takes from Python: the Unicode tables, `str(value)`, the integer that a float
-- equals (1.0 and 1 are one key of a dict), and `int(text)`, which may raise ValueError.
pub record Runtime : Type 0 where
  pub unicode : Unicode
  pub to_str : Value → Text
  pub float_int : Text → Option ℤ
  pub parse_int : Text → Option ℤ

-- A hashable value up to Python's `==`.
pub data Key : Type 0 where
  null_key : Key
  number_key : ℤ → Key
  float_key str_key : Text → Key

abbrev bit : Bool → ℕ
bit true = 1
bit false = 0

-- `hash(value)`: lists and dicts have none.
unfoldable pub key_of : Runtime → Value → Option Key
key_of runtime null = some null_key
key_of runtime (bool b) = some (number_key (pos (bit b)))
key_of runtime (int z) = some (number_key z)
key_of runtime (float repr) = elim (runtime.float_int repr) [
  | none ↦ some (float_key repr)
  | some z ↦ some (number_key z)
]
key_of runtime (str s) = some (str_key s)
key_of runtime (array values) = none
key_of runtime (object fields) = none

key_beq : Key → Key → Bool
key_beq null_key null_key = true
key_beq (number_key (pos m)) (number_key (pos n)) = eqb m n
key_beq (number_key (negsuc m)) (number_key (negsuc n)) = eqb m n
key_beq (float_key s) (float_key t) = s == t
key_beq (str_key s) (str_key t) = s == t
key_beq _ _ = false

key_beq_iff : (a b : Key) → (key_beq a b ≡ true) ↔ (a ≡ b)
unfolding key_beq
key_beq_iff (float_key s) (float_key t) = ground (arith, eq_iff s t)
key_beq_iff (str_key s) (str_key t) = ground (arith, eq_iff s t)
key_beq_iff (number_key (pos m)) (number_key (pos n)) = ground arith
key_beq_iff (number_key (negsuc m)) (number_key (negsuc n)) = ground arith
key_beq_iff a b = ground arith

instance unfoldable pub key_eq : Eq Key
unfolding key_beq key_beq_iff
key_eq = record { test = key_beq; test_iff = key_beq_iff }

pub get-eq_of_lookup :
    (d : Object) (key : Text) (default : Value) {value : Value}
    → lookup key d ≡ some value
    → get d key default ≡ value
unfolding get
get-eq_of_lookup d key default h = ground arith
