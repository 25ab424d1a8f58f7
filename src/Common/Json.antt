-- ===== src/Common/Json.antt =====
-- Python's `json` and what is done with the values it gives. `loads` raises JSONDecodeError, or
-- another exception on a number that is too long or a text that is nested too deep.
use property_management_lead.Common.{Option, none, some, List, [], ◌∷◌, ◌++◌, Text, codes, text_eq}
use property_management_lead.Common.Dict.{lookup}
use property_management_lead.Common.Result.{
  Result, ok, raised, type_error, value_error, other_error,
}
use property_management_lead.Common.Value.{
  Value, null, bool, int, float, str, array, object, Items, nil, cons, Fields, end, field, Object,
  entries, get,
}

pub record Json : Type 0 where
  pub dumps : Value → Text
  pub loads : Text → Result Value
  -- `dict` of a list, which wants pairs
  pub dict_of : Items → Result Object

-- `type(value).__name__`
unfoldable pub type_name : Value → Text
type_name null = codes "NoneType"
type_name (bool b) = codes "bool"
type_name (int z) = codes "int"
type_name (float repr) = codes "float"
type_name (str s) = codes "str"
type_name (array items) = codes "list"
type_name (object fields) = codes "dict"

-- `dict(value)`
unfoldable pub dict_value : Json → Value → Result Object
unfolding type_name
dict_value json (object fields) = ok (entries fields)
dict_value json (array items) = json.dict_of items
dict_value json (str []) = ok []
dict_value json (str (c ∷ s)) =
    raised value_error (codes "dictionary update sequence element #0 has length 1; 2 is required")
dict_value json value =
    raised type_error (codes "'" ++ (type_name value ++ codes "' object is not iterable"))

-- `value[key]`, or none for its KeyError or TypeError.
unfoldable pub subscript : Value → Text → Option Value
subscript (object fields) key = lookup key (entries fields)
subscript value key = none

-- `value[0]`, or none for its KeyError, IndexError or TypeError.
unfoldable pub first : Value → Option Value
first (array (cons value items)) = some value
first (str (c ∷ s)) = some (str (c ∷ []))
first value = none

-- The AttributeError of `value.name`.
unfoldable pub no_attribute {ℓ} : {A : Type ℓ} → Value → Text → Result A
unfolding type_name
no_attribute value name =
    raised other_error (
      codes "'"
      ++ (type_name value ++ (codes "' object has no attribute '" ++ (name ++ codes "'"))))

-- `value.get(key, default)`
unfoldable pub get_of : Value → Text → Value → Result Value
unfolding no_attribute
get_of (object fields) key default = ok (get (entries fields) key default)
get_of value key default = no_attribute value (codes "get")

-- A dict as a value.
unfoldable pub fields_of : Object → Fields
fields_of [] = end
fields_of ((key, value) ∷ rest) = field key value (fields_of rest)

-- `for x in value`, where each `x` must have a `get`: the dicts up to the first other element, and
-- what that, or `value` itself, raises.
unfoldable pub dicts_of : Items → List Object × Result (Unit {0})
unfolding no_attribute
dicts_of nil = ([], ok tt)
dicts_of (cons (object fields) items) =
    let (dicts, after) = dicts_of items in (entries fields ∷ dicts, after)
dicts_of (cons value items) = ([], no_attribute value (codes "get"))

unfoldable pub iterated : Value → List Object × Result (Unit {0})
unfolding dicts_of no_attribute type_name
iterated (array items) = dicts_of items
iterated (str []) = ([], ok tt)
iterated (str (c ∷ s)) = ([], no_attribute (str []) (codes "get"))
iterated (object end) = ([], ok tt)
iterated (object (field key value rest)) = ([], no_attribute (str []) (codes "get"))
iterated value =
    ([], raised type_error (codes "'" ++ (type_name value ++ codes "' object is not iterable")))
