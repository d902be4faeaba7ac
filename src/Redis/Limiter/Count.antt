-- ===== src/Redis/Limiter/Count.antt =====
-- `current_count` of the limiter over Redis.
use toolboundary.Common.{ℕ, ◌≡◌, String, false, arith, ltb, leb, Bool-cases, inl, inr}
use toolboundary.Common.Int.{minus}
use toolboundary.Redis.Server.{answered, SortedSets}
use toolboundary.Redis.Key.{redis_key}
use toolboundary.Redis.Limiter.{
  Client, Shared, sliding_window_script, current_count_script, check_and_record, current_count,
}

module _ (R : SortedSets) (C : Client) where
  -- While the server answers, a call with a positive maximum is admitted exactly when the count
  -- that `current_count` would have given instead is below the maximum.
  pub current_count-admits :
      (key : String) (m w now : ℕ) (s : Shared R)
      → C.link s.calls ≡ answered
      → leb m 0 ≡ false
      → (check_and_record R C key m w now s).0 ≡ ltb (current_count R C key w now s).0 m
  unfolding check_and_record current_count sliding_window_script current_count_script
  current_count-admits key m w now s up some_calls =
      let k = redis_key C.key_prefix key in
      let counted = R.zcard k now (R.zremrangebyscore k (minus now w) now s.server) in
      elim (Bool-cases (leb m counted)) [
        | inl full ↦ rw (some_calls, up, full) (ground (arith, full))
        | inr room ↦ rw (some_calls, up, room) (ground (arith, room))
      ]
