-- ===== src/RateLimiter/History.antt =====
-- The limiter of src/utils/rate_limiter.py after any sequence of calls: its counters are the
-- failures since the domain's last success or reset, and it never learns when a call was made.
use property_management_lead.Common.{
  ℕ, suc, ◌+◌, ◌≡◌, refl, Bool, true, ◌||◌, Option, none, some, List, [], ◌∷◌, Text, text_eq, arith,
  ◌==◌, eq_iff, is_empty, Bool-cases, inl, inr, if◌then◌else◌,
}
use property_management_lead.Common.Dict.{lookup, erase, lookup-insert, lookup-erase}
use property_management_lead.Common.Result.{ok}
use property_management_lead.RateLimiter.{
  RateLimiter, init, failure_count, wait_if_needed, record_failure, record_success, reset,
}

pub data Call : Type 0 where
  wait : Text → ℕ → ℕ → Call
  failed succeeded : Text → Call
  cleared : Option Text → Call

-- One call of a method.
unfoldable pub step : RateLimiter → Call → RateLimiter
step limiter (wait domain now jitter) = (wait_if_needed limiter domain now jitter).1
step limiter (failed domain) = record_failure limiter domain
step limiter (succeeded domain) = record_success limiter domain
step limiter (cleared domain) = reset limiter domain

unfoldable pub run : RateLimiter → List Call → RateLimiter
unfolding step
run limiter [] = limiter
run limiter (call ∷ calls) = run (step limiter call) calls

-- A reset that reaches the domain.
abbrev clears : Option Text → Text → Bool
clears none domain = true
clears (some target) domain = is_empty target || target == domain

-- What the calls mean for one domain: the failures in a row.
abbrev next : ℕ → Call → Text → ℕ
next n (wait target now jitter) domain = n
next n (failed target) domain = if target == domain then suc n else n
next n (succeeded target) domain = if target == domain then 0 else n
next n (cleared target) domain = if clears target domain then 0 else n

abbrev pub consecutive : ℕ → List Call → Text → ℕ
consecutive n [] domain = n
consecutive n (call ∷ calls) domain = consecutive (next n call domain) calls domain

failure_count-step :
    (limiter : RateLimiter) (call : Call) (domain : Text)
    → failure_count (step limiter call) domain ≡ next (failure_count limiter domain) call domain
unfolding failure_count step wait_if_needed record_failure record_success reset lookup
failure_count-step limiter (wait target now jitter) domain = refl
failure_count-step limiter (failed target) domain = ground (
  arith,
  lookup-insert domain target (failure_count limiter target + 1) limiter.failures,
  eq_iff domain target,
  eq_iff target domain,
)
failure_count-step limiter (succeeded target) domain =
    ground (
      arith,
      lookup-erase domain target limiter.failures,
      eq_iff domain target,
      eq_iff target domain,
    )
failure_count-step limiter (cleared none) domain = refl
failure_count-step limiter (cleared (some target)) domain =
    ground (
      arith,
      lookup-erase domain target limiter.failures,
      eq_iff domain target,
      eq_iff target domain,
    )

failure_count-run_from :
    (limiter : RateLimiter) (calls : List Call) (domain : Text)
    → failure_count (run limiter calls) domain
      ≡ consecutive (failure_count limiter domain) calls domain
unfolding run
failure_count-run_from limiter [] domain = refl
failure_count-run_from limiter (call ∷ calls) domain =
    rw (failure_count-run_from (step limiter call) calls domain, failure_count-step)

-- After any calls on a new limiter the counter of a domain is the number of its failures since
-- its last success or reset, and no other domain's calls matter.
pub failure_count-run :
    (base : ℕ) (calls : List Call) (domain : Text)
    → failure_count (run (init base) calls) domain ≡ consecutive 0 calls domain
unfolding failure_count lookup
failure_count-run base calls domain = failure_count-run_from (init base) calls domain

last_call-reset :
    (limiter : RateLimiter) (domain : Option Text)
    → limiter.last_call ≡ []
    → (reset limiter domain).last_call ≡ []
unfolding reset erase
last_call-reset limiter none h = refl
last_call-reset limiter (some domain) h = elim (Bool-cases (is_empty domain)) [
  | inl e ↦ rw e
  | inr e ↦ rw (e, h)
]

last_call-run_from :
    (limiter : RateLimiter) (calls : List Call)
    → limiter.last_call ≡ []
    → (run limiter calls).last_call ≡ []
unfolding run wait_if_needed record_failure record_success reset
last_call-run_from limiter [] h = h
last_call-run_from limiter (wait domain now jitter ∷ calls) h = last_call-run_from limiter calls h
last_call-run_from limiter (failed domain ∷ calls) h =
    last_call-run_from (record_failure limiter domain) calls h
last_call-run_from limiter (succeeded domain ∷ calls) h =
    last_call-run_from (record_success limiter domain) calls h
last_call-run_from limiter (cleared domain ∷ calls) h =
    last_call-run_from (reset limiter domain) calls (last_call-reset limiter domain h)

-- After any calls on a new limiter, a domain that has not failed since its last success or reset
-- does not wait: the minimum interval between calls is never applied.
pub wait_if_needed-run :
    (base : ℕ) (calls : List Call) (domain : Text) (now jitter : ℕ)
    → consecutive 0 calls domain ≡ 0
    → (wait_if_needed (run (init base) calls) domain now jitter).0 ≡ ok 0
unfolding wait_if_needed lookup
wait_if_needed-run base calls domain now jitter quiet =
    ground (arith, failure_count-run base calls domain, last_call-run_from (init base) calls refl)
