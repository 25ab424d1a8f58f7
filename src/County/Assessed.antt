-- ===== src/County/Assessed.antt =====
-- `get_assessed_value` of src/scrapers/county_assessor.py. `truncate` is Python's `int` on a float,
-- which raises for a float that is no number or infinite.
use property_management_lead.Common.{
  ℕ, Option, none, some, Text, codes, text_eq, ◌==◌, ◌++◌, if◌then◌else◌,
}
use property_management_lead.Common.Json.{type_name}
use property_management_lead.Common.Result.{
  Result, ok, raised, value_error, json_decode_error, type_error, other_error, ◌>>=◌,
}
use property_management_lead.Common.Value.{
  ℤ, pos, Value, null, bool, int, float, str, object, entries, truthy, get, Runtime,
}
use property_management_lead.RateLimiter.{RateLimiter}
use property_management_lead.County.Search.{Server, search_by_apn}

value_field : Text → Text
value_field county =
    if county == codes "Orange County" then codes "ASSESSEDVALUE" else codes "ASSESSED_VALUE"

module _ (runtime : Runtime) (truncate : Text → Result ℤ) where
  -- `int(raw)`
  int_of : Value → Result ℤ
  int_of (bool b) = ok (pos (if b then 1 else 0))
  int_of (int z) = ok z
  int_of (float repr) = truncate repr
  int_of (str s) = elim (runtime.parse_int s) [
    | none ↦ raised value_error (codes "invalid literal for int() with base 10")
    | some z ↦ ok z
  ]
  int_of value =
      raised type_error
        (codes "int() argument must be a string or a real number, not " ++ type_name value)

  -- The `except` clause: an OverflowError goes on.
  uncaught : Result ℤ → Result (Option ℤ)
  uncaught (ok z) = ok (some z)
  uncaught (raised value_error message) = ok none
  uncaught (raised json_decode_error message) = ok none
  uncaught (raised type_error message) = ok none
  uncaught (raised kind message) = raised kind message

  raw_value : Value → Result (Option ℤ)
  unfolding int_of uncaught
  raw_value null = ok none
  raw_value raw = uncaught (int_of raw)

  assessed_of : Text → Option Value → Result (Option ℤ)
  unfolding value_field raw_value
  assessed_of county none = ok none
  assessed_of county (some (object fields)) =
      raw_value (get (entries fields) (value_field county) null)
  assessed_of county (some value) =
      if truthy value then raised other_error (codes "object has no attribute 'get'") else ok none

  unfoldable pub get_assessed_value : Server → Text → Text → RateLimiter → ℕ → ℕ → Result (Option ℤ)
  unfolding assessed_of
  get_assessed_value server apn county limiter now jitter = do
    attributes ← (search_by_apn runtime server apn county limiter now jitter).result
    assessed_of county attributes
