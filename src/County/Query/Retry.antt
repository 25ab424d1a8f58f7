-- ===== src/County/Query/Retry.antt =====
-- The retries of `_arcgis_query` of src/scrapers/county_assessor.py are bounded, and leave the rate
-- limiter with what happened.
use property_management_lead.Common.{
  ℕ, zero, suc, ◌+◌, ◌*◌, ◌≤◌, ◌≡◌, refl, ap, Bool, none, some, List, [], ◌∷◌, Text, text_eq, arith,
  eq_refl, subst, inl, inr,
}
use property_management_lead.Common.Dict.{lookup-erase}
use property_management_lead.Common.Result.{ok, Result-cases}
use property_management_lead.Common.Value.{Value}
use property_management_lead.RateLimiter.{
  RateLimiter, second, failure_count, wait_if_needed, record_failure, record_success,
}
use property_management_lead.RateLimiter.Backoff.{failure_count-record_failure}
use property_management_lead.County.Query.{
  max_retries, Answer, Verdict, retry, found, retry_sleep, Outcome, verdict, attempts, after_wait,
  arcgis_query,
}

abbrev pub total : List ℕ → ℕ
total [] = 0
total (t ∷ ts) = t + total ts

module _ (raises_status : ℕ → Bool) (domain : Text) (answers : ℕ → Answer) where
  requests-attempts :
      (left attempt : ℕ) (limiter : RateLimiter)
      → (attempts raises_status domain answers left attempt limiter).requests ≤ left
  unfolding attempts
  requests-attempts zero attempt limiter = omega arith
  requests-attempts (suc left) attempt limiter =
      ground (arith, requests-attempts left (attempt + 1) (record_failure limiter domain))

  -- Every attempt from `attempt` on, `count` of them, is to be retried.
  abbrev pub Retried : ℕ → ℕ → Type 0
  Retried attempt zero = Unit
  Retried attempt (suc count) =
      (verdict raises_status domain answers (answers attempt) ≡ retry) × Retried (attempt + 1) count

  -- A query sends at most four requests.
  pub requests-arcgis_query :
      (limiter : RateLimiter) (now jitter : ℕ)
      → (arcgis_query raises_status domain answers limiter now jitter).requests ≤ 1 + max_retries
  unfolding arcgis_query after_wait
  requests-arcgis_query limiter now jitter = ground (arith, requests-attempts 4 0 limiter)

  attempts_exhausted :
      (left attempt : ℕ) (limiter : RateLimiter)
      → Retried attempt left
      → let o = attempts raises_status domain answers left attempt limiter in
        (o.requests ≡ left)
        × (o.result ≡ ok none)
        × (failure_count o.limiter domain ≡ failure_count limiter domain + left)
  unfolding attempts
  attempts_exhausted zero attempt limiter h = (refl, refl, omega arith)
  attempts_exhausted (suc left) attempt limiter (h, hs) =
      let (r, n, f) = attempts_exhausted left (attempt + 1) (record_failure limiter domain) hs in
      (ground arith, ground arith, ground (arith, failure_count-record_failure limiter domain))

  -- The sleeps after `count` attempts from number `attempt` on.
  abbrev backoffs : ℕ → ℕ → List ℕ
  backoffs attempt zero = []
  backoffs attempt (suc count) = retry_sleep attempt ∷ backoffs (attempt + 1) count

  sleeps-attempts :
      (left attempt : ℕ) (limiter : RateLimiter)
      → Retried attempt left
      → (attempts raises_status domain answers left attempt limiter).sleeps ≡ backoffs attempt left
  unfolding attempts
  sleeps-attempts zero attempt limiter h = refl
  sleeps-attempts (suc left) attempt limiter (h, hs) =
      ground (arith, sleeps-attempts left (attempt + 1) (record_failure limiter domain) hs)

  total-after_wait :
      (wait : ℕ) (rest : Outcome) → total (after_wait wait rest).sleeps ≡ wait + total rest.sleeps
  unfolding after_wait
  total-after_wait wait rest = ground arith

  -- If the rate limiter raises nothing and every attempt is to be retried, the query sends 1 +
  -- MAX_RETRIES requests, returns None, records as many failures, and sleeps for eleven seconds
  -- beside the first wait: also after the last attempt.
  pub arcgis_query_exhausted :
      (limiter : RateLimiter) (now jitter : ℕ) {wait : ℕ}
      → (wait_if_needed limiter domain now jitter).0 ≡ ok wait
      → Retried 0 (1 + max_retries)
      → let o = arcgis_query raises_status domain answers limiter now jitter in
        (o.requests ≡ 1 + max_retries)
        × (o.result ≡ ok none)
        × (failure_count o.limiter domain ≡ failure_count limiter domain + (1 + max_retries))
        × (total o.sleeps ≡ wait + 11 * second)
  unfolding arcgis_query after_wait retry_sleep
  arcgis_query_exhausted limiter now jitter {wait} waits h =
      let (r, n, f) = attempts_exhausted 4 0 limiter h in
      let s = sleeps-attempts 4 0 limiter h in
      (
        ground arith,
        ground arith,
        ground arith,
        ground (
          arith,
          total-after_wait wait (attempts raises_status domain answers 4 0 limiter),
          ap total s,
        ),
      )

  -- The attributes come from an attempt that all earlier ones led to by retries, and the domain's
  -- failures are forgotten.
  abbrev pub Found : ℕ → Value → Outcome → Type 0
  Found attempt attributes o =
      (tried : ℕ) × Retried attempt tried
      × (verdict raises_status domain answers (answers (attempt + tried)) ≡ found attributes)
      × (failure_count o.limiter domain ≡ 0)

  failure_count-record_success :
      (limiter : RateLimiter) → failure_count (record_success limiter domain) domain ≡ 0
  unfolding failure_count record_success
  failure_count-record_success limiter =
      ground (arith, lookup-erase domain domain limiter.failures, eq_refl domain)

  Found-step :
      (left attempt : ℕ) (limiter : RateLimiter) (attributes : Value) (v : Verdict)
      → verdict raises_status domain answers (answers attempt) ≡ v
      → ((attempts raises_status domain answers left
              (attempt + 1)
              (record_failure limiter domain)).result
            ≡ ok (some attributes)
          → Found (attempt + 1) attributes (
              attempts raises_status domain answers left
                (attempt + 1)
                (record_failure limiter domain)))
      → (attempts raises_status domain answers (suc left) attempt limiter).result
        ≡ ok (some attributes)
      → Found attempt attributes (attempts raises_status domain answers (suc left) attempt limiter)
  unfolding attempts
  Found-step left attempt limiter attributes retry e later h =
      let (tried, rs, at, f) = later (ground arith) in
      let next : attempt + 1 + tried ≡ attempt + suc tried = omega arith in
      (
        suc tried,
        (e, rs),
        subst (λ n. verdict raises_status domain answers (answers n) ≡ found attributes) next at,
        ground arith,
      )
  Found-step left attempt limiter attributes (found attributes') e later h =
      let here : attempt ≡ attempt + 0 = omega arith in
      (
        0,
        tt,
        subst (λ n. verdict raises_status domain answers (answers n) ≡ found attributes) here
            (ground arith),
        ground (arith, failure_count-record_success limiter),
      )
  Found-step left attempt limiter attributes v e later h = absurd (ground arith)

  Found-attempts :
      (left attempt : ℕ) (limiter : RateLimiter) (attributes : Value)
      → (attempts raises_status domain answers left attempt limiter).result ≡ ok (some attributes)
      → Found attempt attributes (attempts raises_status domain answers left attempt limiter)
  Found-attempts zero attempt limiter attributes h = absurd (unfold attempts in ground arith)
  Found-attempts (suc left) attempt limiter attributes h =
      Found-step left attempt limiter attributes _ refl
        (Found-attempts left (attempt + 1) (record_failure limiter domain) attributes) h

  -- Attributes that are returned come from a response that was accepted, after attempts that were
  -- all retried, and the domain's failures are forgotten.
  pub arcgis_query-Found :
      (limiter : RateLimiter) (now jitter : ℕ) (attributes : Value)
      → (arcgis_query raises_status domain answers limiter now jitter).result ≡ ok (some attributes)
      → Found 0 attributes (arcgis_query raises_status domain answers limiter now jitter)
  unfolding arcgis_query after_wait
  arcgis_query-Found limiter now jitter attributes h =
      elim (Result-cases (wait_if_needed limiter domain now jitter).0) [
        | inl (wait, e) ↦
            let (tried, rs, at, f) = Found-attempts 4 0 limiter attributes (ground arith) in
            (tried, rs, at, ground arith)
        | inr (k, m, e) ↦ absurd (ground arith)
      ]
