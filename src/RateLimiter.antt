-- ===== src/RateLimiter.antt =====
-- src/toolboundary/_rate_limiter.py: the in-memory sliding-window rate limiter. A clock reading
-- is a whole number of nanoseconds; a test `t < now - window` is written `t + window < now`, so
-- that nothing is subtracted. The lock makes each method one atomic step.
pub mod Interface
pub mod Window
pub mod Contract
pub mod History
pub mod Refinement
use toolboundary.Common.{
  ℕ, ◌+◌, String, Bool, true, false, Option, none, some, List, [], ◌∷◌, ◌++◌, ltb, leb, length,
  count_if, if◌then◌else◌,
}
use toolboundary.Common.Dict.{Dict, lookup, insert, erase}

-- `self._calls`: for each key the recorded times, the oldest first
pub record SlidingWindow : Type 0 where
  pub calls : Dict (List ℕ)

pub empty : SlidingWindow
empty = record { calls = [] }

-- `self._calls.get(key, deque())`
unfoldable pub window_of : String → SlidingWindow → List ℕ
window_of key s = elim (lookup key s.calls) [ none ↦ [] | some window ↦ window ]

-- the `while` loop: times before the cutoff are popped from the left
unfoldable pub drop_stale : ℕ → ℕ → List ℕ → List ℕ
drop_stale window_seconds now [] = []
drop_stale window_seconds now (t ∷ window) =
    if ltb (t + window_seconds) now then drop_stale window_seconds now window else t ∷ window

unfoldable pub check_and_record : String → ℕ → ℕ → ℕ → SlidingWindow → Bool × SlidingWindow
check_and_record key max_calls window_seconds now s =
    let window = drop_stale window_seconds now (window_of key s) in
    if leb max_calls (length window)
    then (false, record { calls = insert key window s.calls })
    else (true, record { calls = insert key (window ++ now ∷ []) s.calls })

-- the test `t >= cutoff`
abbrev pub fresh : ℕ → ℕ → ℕ → Bool
fresh window_seconds now t = leb now (t + window_seconds)

unfoldable pub current_count : String → ℕ → ℕ → SlidingWindow → ℕ
current_count key window_seconds now s = count_if (fresh window_seconds now) (window_of key s)

unfoldable pub reset : Option String → SlidingWindow → SlidingWindow
reset none s = record { calls = [] }
reset (some key) s = record { calls = erase key s.calls }
