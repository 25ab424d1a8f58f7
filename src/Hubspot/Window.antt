-- ===== src/Hubspot/Window.antt =====
-- `_wait_if_needed` of src/utils/hubspot_client/__init__.py: the sliding window of request times,
-- oldest first, in whole ticks. The two readings of the clock are arguments.
pub mod Spacing
use property_management_lead.Common.{
  ℕ, ◌+◌, ◌-◌, ◌*◌, Bool, List, [], ◌∷◌, ◌++◌, length, drop, leb, ltb, if◌then◌else◌,
}
use property_management_lead.RateLimiter.{second}

abbrev pub max_requests : ℕ
max_requests = 100

abbrev pub window : ℕ
window = 10 * second

-- The `while` loop that pops from the left: `t <= now - WINDOW_SECONDS`.
unfoldable pub prune : ℕ → List ℕ → List ℕ
prune now [] = []
prune now (t ∷ ts) = let rest = prune now ts in if leb (t + window) now then rest else t ∷ ts

-- `deque(maxlen=MAX_REQUESTS).append`
unfoldable pub append_bounded : List ℕ → ℕ → List ℕ
append_bounded ts t =
    let all = ts ++ t ∷ [] in if ltb max_requests (length all) then drop 1 all else all

-- `oldest + WINDOW_SECONDS - now` if the window is full.
pub sleep_full : List ℕ → ℕ → ℕ
sleep_full [] now = 0
sleep_full (oldest ∷ ts) now = (oldest + window) - now

unfoldable pub sleep_for : List ℕ → ℕ → ℕ
unfolding prune sleep_full
sleep_for ts now =
    let pruned = prune now ts in
    if leb max_requests (length pruned) then sleep_full pruned now else 0

-- The timestamps after a request that reads the clock at `now`, sleeps for `sleep_for`, and reads
-- it again at `later`.
unfoldable pub wait_if_needed : List ℕ → ℕ → ℕ → List ℕ
unfolding prune append_bounded
wait_if_needed ts now later = append_bounded (prune now ts) later
