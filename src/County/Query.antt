-- ===== src/County/Query.antt =====
-- `_arcgis_query` of src/scrapers/county_assessor.py: requests with retries over the shared rate
-- limiter. What the server answers to each attempt is an argument; the waits are recorded.
pub mod Retry
use property_management_lead.Common.{
  ℕ, zero, suc, ◌+◌, ◌*◌, Bool, true, false, ◌||◌, Option, none, some, List, [], ◌∷◌, ◌++◌, Text,
  codes, text_eq, contains, nat_eq, eqb, ltb, if◌then◌else◌, get_elem?,
}
use property_management_lead.Common.Dict.{Dict, lookup}
use property_management_lead.Common.Result.{
  Kind, Result, ok, raised, other_error, value_error, ◌>>=◌,
}
use property_management_lead.Common.Value.{
  Value, bool, int, float, str, array, object, Items, nil, cons, Fields, end, field, Object,
  entries, truthy, get,
}
use property_management_lead.RateLimiter.{
  RateLimiter, second, wait_if_needed, record_failure, record_success,
}

abbrev pub max_retries : ℕ
max_retries = 3

abbrev retryable_statuses : List ℕ
retryable_statuses = 429 ∷ 502 ∷ 503 ∷ 504 ∷ []

abbrev fatal_statuses : List ℕ
fatal_statuses = 400 ∷ 401 ∷ 403 ∷ 404 ∷ 422 ∷ []

-- One attempt: a timeout, another `httpx.RequestError`, or a response with its JSON body.
pub data Answer : Type 0 where
  timeout connection_error : Answer
  answer : ℕ → Option Value → Answer

-- What an attempt comes to: try again, return None after a failure or a success, return
-- attributes, or raise.
pub data Verdict : Type 0 where
  retry : Verdict
  give_up : Verdict
  nothing : Verdict
  found : Value → Verdict
  malformed : Verdict
  raises : Kind → Text → Verdict

-- `if not attributes`, then `len(attributes)`, which is a TypeError for a number.
attributes_verdict : Value → Verdict
attributes_verdict (bool b) = if b then malformed else nothing
attributes_verdict (int z) = if truthy (int z) then malformed else nothing
attributes_verdict (float repr) = if truthy (float repr) then malformed else nothing
attributes_verdict value = if truthy value then found value else nothing

-- `features[0].get("attributes", {})`, for truthy features: a KeyError, an IndexError or a TypeError
-- is caught, an AttributeError is not.
feature_verdict : Value → Verdict
unfolding attributes_verdict
feature_verdict (array (cons (object fields) rest)) =
    attributes_verdict (get (entries fields) (codes "attributes") (object end))
feature_verdict (array (cons value rest)) =
    raises other_error (codes "object has no attribute 'get'")
feature_verdict (str s) = raises other_error (codes "'str' object has no attribute 'get'")
feature_verdict value = malformed

body_verdict : Option Value → Verdict
unfolding feature_verdict
body_verdict none = raises value_error (codes "JSONDecodeError")
body_verdict (some (object fields)) =
    let features = get (entries fields) (codes "features") (array nil) in
    if truthy features then feature_verdict features else nothing
body_verdict (some value) = raises other_error (codes "object has no attribute 'get'")

-- RETRY_BACKOFF[attempt], its last value for later attempts.
unfoldable pub retry_sleep : ℕ → ℕ
retry_sleep attempt = elim (get_elem? (second ∷ 2 * second ∷ 4 * second ∷ []) attempt) [
  | some delay ↦ delay
  | none ↦ 4 * second
]

-- The limiter, the sleeps and the number of requests after a query, and what it returned.
pub record Outcome : Type 0 where
  pub limiter : RateLimiter
  pub sleeps : List ℕ
  pub requests : ℕ
  pub result : Result (Option Value)

finish : RateLimiter → Result (Option Value) → Outcome
finish limiter result = record { limiter = limiter; sleeps = []; requests = 1; result = result }

after_retry : ℕ → Outcome → Outcome
after_retry attempt rest = record {
  limiter = rest.limiter;
  sleeps = retry_sleep attempt ∷ rest.sleeps;
  requests = suc rest.requests;
  result = rest.result;
}

-- The wait of the rate limiter comes once, before the first attempt.
after_wait : ℕ → Outcome → Outcome
after_wait wait rest = record {
  limiter = rest.limiter;
  sleeps = if ltb 0 wait then wait ∷ rest.sleeps else rest.sleeps;
  requests = rest.requests;
  result = rest.result;
}

-- `raises_status` is when `resp.raise_for_status()` raises.
module _ (raises_status : ℕ → Bool) (domain : Text) (answers : ℕ → Answer) where
  unfoldable pub verdict : Answer → Verdict
  unfolding body_verdict
  verdict timeout = retry
  verdict connection_error = retry
  verdict (answer status body) =
      if contains fatal_statuses status
      then give_up
      else if raises_status status
      then (if contains retryable_statuses status then retry else give_up)
      else body_verdict body

  -- The attempts that are left, from number `attempt` on.
  unfoldable pub attempts : ℕ → ℕ → RateLimiter → Outcome
  unfolding finish after_retry
  attempts zero attempt limiter = record {
    limiter = limiter;
    sleeps = [];
    requests = 0;
    result = ok none;
  }
  attempts (suc left) attempt limiter = elim (verdict (answers attempt)) [
    | retry ↦ after_retry attempt (attempts left (attempt + 1) (record_failure limiter domain))
    | give_up ↦ finish (record_failure limiter domain) (ok none)
    | nothing ↦ finish (record_success limiter domain) (ok none)
    | found attributes ↦ finish (record_success limiter domain) (ok (some attributes))
    | malformed ↦ finish (record_failure limiter domain) (ok none)
    | raises kind message ↦ finish limiter (raised kind message)
  ]

  unfoldable pub arcgis_query : RateLimiter → ℕ → ℕ → Outcome
  unfolding attempts after_wait
  arcgis_query limiter now jitter = elim (wait_if_needed limiter domain now jitter).0 [
    | ok wait ↦ after_wait wait (attempts (1 + max_retries) 0 limiter)
    | raised kind message ↦ record {
      limiter = limiter;
      sleeps = [];
      requests = 0;
      result = raised kind message;
    }
  ]
