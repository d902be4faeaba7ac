-- ===== src/RateLimiter/Interface.antt =====
-- What `Boundary` asks of the object passed as `rate_limiter`, an in-memory limiter or a shared
-- one: the method that it calls, and the sliding-window contract that the method keeps.
use toolboundary.Common.{ℕ, ◌+◌, ◌≤◌, String, ◌≡◌, Bool, ltb, leb, ◌==◌, if◌then◌else◌}

pub record RateLimiter : Type 1 where
  pub State : Type 0
  -- key, max_calls, window_seconds, and the clock reading of the call
  pub check_and_record : String → ℕ → ℕ → ℕ → State → Bool × State

-- The contract speaks of the calls that a limiter remembers. `Valid s t`: the state is consistent,
-- and no recorded time is after `t`. `w` is the length of every window, and `v` the age up to which
-- a call is counted: `w` itself, or a tick less where the window excludes its start.
pub record SlidingWindowLaws (L : RateLimiter) (w v : ℕ) : Type 1 where
  pub Valid : L.State → ℕ → Type 0
  -- how many recorded calls of a key lie in the window that ends at a time
  pub count : String → ℕ → L.State → ℕ
  pub valid_later : (s : L.State) (t t' : ℕ) → Valid s t → t ≤ t' → Valid s t'
  pub valid_step :
      (k : String) (m t : ℕ) (s : L.State) → Valid s t → Valid (L.check_and_record k m w t s).1 t
  -- a call is admitted exactly when the window holds fewer than the maximum
  pub admits :
      (k : String) (m t : ℕ) (s : L.State)
      → Valid s t
      → (L.check_and_record k m w t s).0 ≡ ltb (count k t s) m
  -- an admitted call is one more in the windows that reach back to it, a refused one in none
  pub counts :
      (k j : String) (m t t' : ℕ) (s : L.State)
      → Valid s t
      → t ≤ t'
      → count j t' (L.check_and_record k m w t s).1
        ≡ count j t' s
          + (if k == j
              then (if (L.check_and_record k m w t s).0
                  then (if leb t' (t + v) then 1 else 0)
                  else 0)
              else 0)
