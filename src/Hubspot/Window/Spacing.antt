-- ===== src/Hubspot/Window/Spacing.antt =====
-- The rate limit that the sliding window of src/utils/hubspot_client/__init__.py enforces.
use mathlib.Core.List.{reverse, reverse-append, append_assoc}
use property_management_lead.Common.{
  ℕ, zero, suc, ◌+◌, ◌-◌, ◌≤◌, ◌<◌, ◌≡◌, refl, sym, ap, ◌∙◌, some, List, [], ◌∷◌, ◌++◌, length,
  length-append, get_elem?, All, arith, leb, ltb, Bool-cases, inl, inr, true, false,
}
use property_management_lead.Hubspot.Window.{
  max_requests, window, prune, append_bounded, sleep_full, sleep_for, wait_if_needed,
}

-- The requests so far, newest first, with the client's timestamps and the present time: the clock
-- does not run backwards, and `time.sleep` sleeps at least as long as it is asked to.
pub data Requests : List ℕ → List ℕ → ℕ → Type 0 where
  start : (time : ℕ) → Requests [] [] time
  next :
      {log ts : List ℕ} {time : ℕ} (now later : ℕ)
      → Requests log ts time
      → time ≤ now
      → now + sleep_for ts now ≤ later
      → Requests (later ∷ log) (wait_if_needed ts now later) later

-- Each request comes a whole window after the one that is `max_requests` before it.
abbrev pub IsSpaced : List ℕ → Type 0
IsSpaced [] = Unit
IsSpaced (t ∷ log) =
    ((old : ℕ) → get_elem? log (max_requests - 1) ≡ some old → old + window ≤ t) × IsSpaced log

abbrev IsOld : ℕ → List ℕ → Type 0
IsOld time = All (λ old. old + window ≤ time)

IsOld-later : {time later : ℕ} (ts : List ℕ) → time ≤ later → IsOld time ts → IsOld later ts
IsOld-later [] h old = tt
IsOld-later (t ∷ ts) h (o, old) = (omega arith, IsOld-later ts h old)

IsOld-append : (time : ℕ) (xs ys : List ℕ) → IsOld time xs → IsOld time ys → IsOld time (xs ++ ys)
IsOld-append time [] ys hx hy = hy
IsOld-append time (x ∷ xs) ys (h, hx) hy = (h, IsOld-append time xs ys hx hy)

get_elem?-IsOld :
    (time : ℕ) (ts : List ℕ) (i : ℕ) {old : ℕ}
    → IsOld time ts
    → get_elem? ts i ≡ some old
    → old + window ≤ time
get_elem?-IsOld time [] i h e = absurd (ground arith)
get_elem?-IsOld time (t ∷ ts) zero (h, hs) e = ground arith
get_elem?-IsOld time (t ∷ ts) (suc i) (h, hs) e = get_elem?-IsOld time ts i hs e

get_elem?-append_right :
    (xs ys : List ℕ) (i : ℕ) → length xs ≤ i → get_elem? (xs ++ ys) i ≡ get_elem? ys (i - length xs)
get_elem?-append_right [] ys i h = ap (get_elem? ys) (omega arith)
get_elem?-append_right (x ∷ xs) ys zero h = absurd (omega arith)
get_elem?-append_right (x ∷ xs) ys (suc i) h =
    get_elem?-append_right xs ys i (omega arith) ∙ ap (get_elem? ys) (omega arith)

length-reverse : (ts : List ℕ) → length (reverse ts) ≡ length ts
length-reverse [] = refl
length-reverse (t ∷ ts) =
    ap length (reverse-append (t ∷ []) ts)
    ∙ omega (arith, length-append (reverse ts) (t ∷ []), length-reverse ts)

-- The timestamps are the newest part of the log, and what they leave out is a window old.
record Covers (log ts : List ℕ) (time : ℕ) : Type 0 where
  old : List ℕ
  split : log ≡ reverse ts ++ old
  is_old : IsOld time old
  bounded : length ts ≤ max_requests

reverse-cons : (t : ℕ) (ts old : List ℕ) → reverse (t ∷ ts) ++ old ≡ reverse ts ++ t ∷ old
reverse-cons t ts old = rw (reverse-append (t ∷ []) ts) (append_assoc (reverse ts) (t ∷ []) old)

later-Covers :
    {log ts : List ℕ} {time now : ℕ} → time ≤ now → Covers log ts time → Covers log ts now
later-Covers h c = record {
  old = c.old;
  split = c.split;
  is_old = IsOld-later c.old h c.is_old;
  bounded = c.bounded;
}

-- The oldest timestamp may be dropped once it is a window old.
drop-Covers :
    (log : List ℕ) (t : ℕ) (ts : List ℕ) {now : ℕ}
    → t + window ≤ now
    → Covers log (t ∷ ts) now
    → Covers log ts now
drop-Covers log t ts h c = record {
  old = t ∷ c.old;
  split = c.split ∙ reverse-cons t ts c.old;
  is_old = (h, c.is_old);
  bounded = omega (arith, c.bounded);
}

prune-Covers : (log ts : List ℕ) (now : ℕ) → Covers log ts now → Covers log (prune now ts) now
unfolding prune
prune-Covers log [] now c = c
prune-Covers log (t ∷ ts) now c = elim (Bool-cases (leb (t + window) now)) [
  | inl expired ↦ rw expired (prune-Covers log ts now (drop-Covers log t ts (ground arith) c))
  | inr fresh ↦ rw fresh c
]

-- A new request joins a window that has room.
append-Covers :
    (log ts : List ℕ) (later : ℕ)
    → length ts < max_requests
    → Covers log ts later
    → Covers (later ∷ log) (ts ++ later ∷ []) later
append-Covers log ts later room c = record {
  old = c.old;
  split =
      ap (λ (l : List ℕ). later ∷ l) c.split
      ∙ sym (ap (λ (l : List ℕ). l ++ c.old) (reverse-append ts (later ∷ [])));
  is_old = c.is_old;
  bounded = omega (arith, length-append ts (later ∷ []));
}

append_bounded-Covers :
    (log ts : List ℕ) (now later : ℕ)
    → now ≤ later
    → (leb max_requests (length ts) ≡ true → now + sleep_full ts now ≤ later)
    → Covers log ts now
    → Covers (later ∷ log) (append_bounded ts later) later
unfolding append_bounded sleep_full
append_bounded-Covers log [] now later h slept c =
    append-Covers log [] later (omega arith) (later-Covers h c)
append_bounded-Covers log (t ∷ ts) now later h slept c =
    elim (Bool-cases (leb max_requests (suc (length ts)))) [
      | inl full ↦
          let over : ltb max_requests (suc (length (ts ++ later ∷ []))) ≡ true =
            ground (arith, length-append ts (later ∷ [])) in
          let aged : t + window ≤ later = omega (arith, slept full) in
          rw over (
            append-Covers log ts later (omega (arith, c.bounded))
              (drop-Covers log t ts aged (later-Covers h c)))
      | inr room ↦
          let under : ltb max_requests (suc (length (ts ++ later ∷ []))) ≡ false =
            ground (arith, length-append ts (later ∷ [])) in
          rw under (append-Covers log (t ∷ ts) later (ground arith) (later-Covers h c))
    ]

Requests-Covers : {log ts : List ℕ} {time : ℕ} → Requests log ts time → Covers log ts time
unfolding wait_if_needed sleep_for
Requests-Covers (start time) = record { old = []; split = refl; is_old = tt; bounded = omega arith }
Requests-Covers (next {log} {ts} now later before h slept) =
    append_bounded-Covers log (prune now ts) now later (omega arith) (λ full. ground arith)
      (prune-Covers log ts now (later-Covers h (Requests-Covers before)))

Covers-get_elem? :
    (log ts : List ℕ) (later old : ℕ)
    → length ts < max_requests
    → Covers log ts later
    → get_elem? log (max_requests - 1) ≡ some old
    → old + window ≤ later
Covers-get_elem? log ts later old room c e =
    get_elem?-IsOld later c.old (max_requests - 1 - length (reverse ts)) c.is_old (
      sym (
        get_elem?-append_right (reverse ts) c.old (max_requests - 1)
          (omega (arith, length-reverse ts)))
      ∙ ap (λ (l : List ℕ). get_elem? l (max_requests - 1)) (sym c.split)
      ∙ e)

-- The entry `max_requests` before the next request is a window old when that is made.
Covers-later :
    (log ts : List ℕ) (now later old : ℕ)
    → (leb max_requests (length ts) ≡ true → now + sleep_full ts now ≤ later)
    → now ≤ later
    → Covers log ts now
    → get_elem? log (max_requests - 1) ≡ some old
    → old + window ≤ later
unfolding sleep_full
Covers-later log [] now later old slept h c e =
    Covers-get_elem? log [] later old (omega arith) (later-Covers h c) e
Covers-later log (t ∷ ts) now later old slept h c e =
    elim (Bool-cases (leb max_requests (suc (length ts)))) [
      | inl full ↦
          let aged : t + window ≤ later = omega (arith, slept full) in
          Covers-get_elem? log ts later old (omega (arith, c.bounded))
            (drop-Covers log t ts aged (later-Covers h c)) e
      | inr room ↦ Covers-get_elem? log (t ∷ ts) later old (ground arith) (later-Covers h c) e
    ]

-- With a clock that does not run backwards and sleeps that last at least as long as asked, each
-- request comes a whole window after the one that is MAX_REQUESTS before it, however many requests
-- are made and whenever.
pub Requests-IsSpaced : {log ts : List ℕ} {time : ℕ} → Requests log ts time → IsSpaced log
unfolding sleep_for
Requests-IsSpaced (start time) = tt
Requests-IsSpaced (next {log} {ts} now later before h slept) = (
  λ old e.
      Covers-later log (prune now ts) now later old (λ full. ground arith) (omega arith)
        (prune-Covers log ts now (later-Covers h (Requests-Covers before))) e,
  Requests-IsSpaced before,
)
