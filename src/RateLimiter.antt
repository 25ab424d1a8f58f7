-- ===== src/RateLimiter.antt =====
-- src/utils/rate_limiter.py: per-domain waits with exponential backoff.
-- Times are whole ticks, `second` of them to a second; the rounding of floats is left out. The clock
-- and the random jitter are arguments. `wait_if_needed` returns how long it sleeps.
pub mod Backoff
pub mod History
use property_management_lead.Common.{
  ℕ, suc, ◌+◌, ◌-◌, ◌*◌, ◌/◌, ◌^◌, min, max, Option, none, some, List, [], ◌∷◌, Text, codes,
  text_eq, is_empty, ltb, leb, if◌then◌else◌,
}
use property_management_lead.Common.Dict.{Dict, lookup, insert, erase}
use property_management_lead.Common.Result.{Result, ok, raised, overflow_error, ◌>>=◌}

abbrev pub second : ℕ
second = 1_000_000_000

abbrev pub default_base : ℕ
default_base = second

abbrev pub max_backoff : ℕ
max_backoff = 300 * second

abbrev pub min_interval : ℕ
min_interval = second / 2

pub record RateLimiter : Type 0 where
  pub base : ℕ
  pub failures : Dict Text ℕ
  pub last_call : Dict Text ℕ

abbrev pub init : ℕ → RateLimiter
init base_delay = record { base = base_delay; failures = []; last_call = [] }

-- `self._failures.get(domain, 0)`
unfoldable pub failure_count : RateLimiter → Text → ℕ
failure_count limiter domain = elim (lookup domain limiter.failures) [ none ↦ 0 | some n ↦ n ]

-- `2**n` is an int: its product with a float raises from n = 1024 on.
backoff : ℕ → ℕ → ℕ → Result ℕ
backoff base n jitter =
    if ltb 0 n
    then (if leb 1024 n
        then raised overflow_error (codes "int too large to convert to float")
        else ok (min (base * 2 ^ n + jitter) max_backoff))
    else ok 0

-- `max(0.0, MIN_INTERVAL - (now - last))`
min_gap : Option ℕ → ℕ → ℕ
min_gap none now = 0
min_gap (some last) now = (min_interval + last) - now

-- The method assigns to no attribute: the limiter comes back as it was.
unfoldable pub wait_if_needed : RateLimiter → Text → ℕ → ℕ → Result ℕ × RateLimiter
unfolding backoff min_gap
wait_if_needed limiter domain now jitter = (
  (do
    wait ← backoff limiter.base (failure_count limiter domain) jitter
    ok (max (min_gap (lookup domain limiter.last_call) now) wait)),
  limiter,
)

unfoldable pub record_failure : RateLimiter → Text → RateLimiter
unfolding failure_count
record_failure limiter domain = record limiter {
  failures = insert domain (failure_count limiter domain + 1) limiter.failures;
}

unfoldable pub record_success : RateLimiter → Text → RateLimiter
record_success limiter domain = record limiter { failures = erase domain limiter.failures }

-- `if domain:` is false for the empty text too.
unfoldable pub reset : RateLimiter → Option Text → RateLimiter
reset limiter none = record limiter { failures = []; last_call = [] }
reset limiter (some domain) =
    if is_empty domain then record limiter { failures = []; last_call = [] } else record limiter {
      failures = erase domain limiter.failures;
      last_call = erase domain limiter.last_call;
    }
