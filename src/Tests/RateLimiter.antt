-- ===== src/Tests/RateLimiter.antt =====
-- Runs of src/utils/rate_limiter.py.
use property_management_lead.Common.{ℕ, ◌≡◌, ◌≤◌, refl, List, [], ◌∷◌, Text, codes, text_eq, arith}
use property_management_lead.Common.Dict.{lookup}
use property_management_lead.Common.Result.{ok}
use property_management_lead.RateLimiter.{
  RateLimiter, default_base, max_backoff, init, failure_count, wait_if_needed, record_failure,
}
use property_management_lead.RateLimiter.Backoff.{wait_if_needed-record_failure}
use property_management_lead.RateLimiter.History.{
  Call, wait, failed, succeeded, run, consecutive, failure_count-run, wait_if_needed-run,
}

abbrev county : Text
county = codes "orange_county"

abbrev calls : List Call
calls =
    failed county ∷ failed (codes "other") ∷ succeeded county ∷ failed county ∷ failed county ∷ []

failure_count-run_example :
    failure_count (run (init default_base) calls) county ≡ consecutive 0 calls county
failure_count-run_example = failure_count-run default_base calls county

abbrev quiet : List Call
quiet = failed county ∷ wait county 0 0 ∷ succeeded county ∷ []

wait_if_needed-run_example : (wait_if_needed (run (init default_base) quiet) county 1 0).0 ≡ ok 0
unfolding text_eq
wait_if_needed-run_example = wait_if_needed-run default_base quiet county 1 0 refl

abbrev failing : RateLimiter
failing = record { base = default_base; failures = (county, 1) ∷ []; last_call = [] }

wait_if_needed-record_failure_example :
    (short : ℕ) × (long : ℕ) × ((wait_if_needed failing county 0 7).0 ≡ ok short)
    × ((wait_if_needed (record_failure failing county) county 3 5).0 ≡ ok long)
    × (short ≤ long)
    × (long ≤ max_backoff)
unfolding failure_count lookup text_eq
wait_if_needed-record_failure_example =
    wait_if_needed-record_failure failing county 0 7 3 5 refl (omega arith) (omega arith)
