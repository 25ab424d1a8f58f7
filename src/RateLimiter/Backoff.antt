-- ===== src/RateLimiter/Backoff.antt =====
-- How long `wait_if_needed` of src/utils/rate_limiter.py sleeps.
use native.Mathlib.Nat.{pow-le-pow_right, pow-succ', mul-le-mul_left}
use property_management_lead.Common.{
  ℕ, zero, suc, ◌+◌, ◌*◌, ◌^◌, ◌≤◌, ◌<◌, min, ◌≡◌, refl, ap, ◌∙◌, none, eq_refl, Text, text_eq,
  arith,
}
use property_management_lead.Common.Dict.{lookup, lookup-insert}
use property_management_lead.Common.Result.{ok}
use property_management_lead.RateLimiter.{
  RateLimiter, max_backoff, failure_count, backoff, min_gap, wait_if_needed, record_failure,
}

backoff-eq-ok :
    (base n jitter : ℕ)
    → n < 1024
    → (delay : ℕ) × (backoff base n jitter ≡ ok delay) × (delay ≤ max_backoff)
unfolding backoff
backoff-eq-ok base zero jitter h = (0, refl, omega arith)
backoff-eq-ok base (suc n) jitter h =
    (min (base * 2 ^ suc n + jitter) max_backoff, ground arith, omega arith)

-- One more failure doubles a delay, which makes up for a shorter jitter.
backoff_mono :
    (base n jitter jitter' : ℕ) {short long : ℕ}
    → jitter ≤ base
    → backoff base n jitter ≡ ok short
    → backoff base (n + 1) jitter' ≡ ok long
    → short ≤ long
unfolding backoff
backoff_mono base n jitter jitter' small p q = ground (arith, grow)
  where
    nonneg : 0 ≤ n
    nonneg = omega arith

    one : 1 ≤ 2 ^ n
    one = grind (arith, pow-le-pow_right {n = 2} (omega arith) nonneg)

    grow : base * 2 ^ n + jitter ≤ base * 2 ^ (n + 1)
    grow =
        let doubled : base * 2 ^ (n + 1) ≡ base * (2 * 2 ^ n) =
          ap (λ m. base * 2 ^ m) (omega arith) ∙ ap (λ p. base * p) (pow-succ' 2 n) in
        omega (arith, mul-le-mul_left base one, doubled, small)

pub failure_count-record_failure :
    (limiter : RateLimiter) (domain : Text)
    → failure_count (record_failure limiter domain) domain ≡ failure_count limiter domain + 1
unfolding failure_count record_failure
failure_count-record_failure limiter domain = ground (
  arith,
  lookup-insert domain domain (failure_count limiter domain + 1) limiter.failures,
  eq_refl domain,
)

wait_if_needed-backoff :
    (limiter : RateLimiter) (domain : Text) (now jitter : ℕ) {delay : ℕ}
    → lookup domain limiter.last_call ≡ none
    → backoff limiter.base (failure_count limiter domain) jitter ≡ ok delay
    → (wait_if_needed limiter domain now jitter).0 ≡ ok delay
unfolding wait_if_needed min_gap
wait_if_needed-backoff limiter domain now jitter unset h = rw (h, unset) (ap ok (omega arith))

-- A domain with fewer than 1023 failures and without an entry in `_last_call`: the wait before and
-- the wait after one more failure both return, whatever the clock and the random jitters are, as
-- long as the first jitter is at most the base delay; the second wait is no shorter than the first,
-- and neither is longer than MAX_BACKOFF.
pub wait_if_needed-record_failure :
    (limiter : RateLimiter) (domain : Text) (now jitter now' jitter' : ℕ)
    → lookup domain limiter.last_call ≡ none
    → jitter ≤ limiter.base
    → failure_count limiter domain < 1023
    → (short : ℕ) × (long : ℕ) × ((wait_if_needed limiter domain now jitter).0 ≡ ok short)
      × ((wait_if_needed (record_failure limiter domain) domain now' jitter').0 ≡ ok long)
      × (short ≤ long)
      × (long ≤ max_backoff)
unfolding record_failure
wait_if_needed-record_failure limiter domain now jitter now' jitter' unset small few =
    let n = failure_count limiter domain in
    let (short, p, p') = backoff-eq-ok limiter.base n jitter (omega arith) in
    let (long, q, q') = backoff-eq-ok limiter.base (n + 1) jitter' (omega arith) in
    (
      short,
      long,
      wait_if_needed-backoff limiter domain now jitter unset p,
      wait_if_needed-backoff (record_failure limiter domain) domain now' jitter' unset (
          ap (λ m. backoff limiter.base m jitter') (failure_count-record_failure limiter domain)
          ∙ q),
      backoff_mono limiter.base n jitter jitter' small p q,
      q',
    )
