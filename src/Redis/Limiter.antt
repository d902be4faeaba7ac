-- ===== src/Redis/Limiter.antt =====
-- `RedisSlidingWindowRateLimiter` of src/toolboundary/redis_backend.py: the two Lua scripts, and
-- the methods that send them. What is written to the log is not modelled.
pub mod Window
pub mod Script
pub mod Contract
pub mod Refinement
pub mod Outage
pub mod Reset
pub mod Count
use toolboundary.Common.{ℕ, suc, ◌+◌, ◌/◌, String, Bool, true, false, not, ltb, leb, if◌then◌else◌}
use toolboundary.Common.Int.{ℤ, minus}
use toolboundary.RateLimiter.Interface.{RateLimiter}
use toolboundary.Redis.Key.{redis_key, member_text}
use toolboundary.Redis.Server.{second, Delivery, answered, lost, unreachable, SortedSets}

-- a limiter object, and what it uses: the text of a clock reading in a member, the successive
-- results of `secrets.token_hex(4)`, and how each exchange with the server ends
pub record Client : Type 0 where
  pub key_prefix : String
  pub fail_closed : Bool
  pub format_time : ℕ → String
  pub token_hex : ℕ → String
  pub link : ℕ → Delivery

-- `max(1, int(window_seconds) + 1)`
unfoldable pub ttl_of : ℕ → ℕ
ttl_of window = if leb 1 (window / second + 1) then window / second + 1 else 1

-- the member of the `i`-th exchange
abbrev pub member_of : Client → ℕ → ℕ → String
member_of C now i = member_text (C.format_time now) (C.token_hex i)

-- what an exchange gives: the reply and the server it leaves, or the answer of the `except` clause
abbrev pub deliver {ℓ κ} : {A : Type ℓ} {S : Type κ} → Delivery → A → A × S → S → A × S
deliver answered failed reply s = reply
deliver lost failed reply s = (failed, reply.1)
deliver unreachable failed reply s = (failed, s)

module _ (R : SortedSets) where
  -- `_SLIDING_WINDOW_LUA`, run by the server at the time `at`
  unfoldable pub sliding_window_script :
      String → ℕ → ℤ → ℕ → String → ℕ → ℕ → R.State → Bool × R.State
  sliding_window_script key now cutoff max_calls member ttl at s =
      let s1 = R.zremrangebyscore key cutoff at s in
      if leb max_calls (R.zcard key at s1)
      then (false, s1)
      else (let s2 = R.zadd key now member at s1 in
          (true, if ltb 0 ttl then R.expire key ttl at s2 else s2))

  -- `_CURRENT_COUNT_LUA`
  unfoldable pub current_count_script : String → ℤ → ℕ → R.State → ℕ × R.State
  current_count_script key cutoff at s =
      let s1 = R.zremrangebyscore key cutoff at s in (R.zcard key at s1, s1)

  -- the server, and how many exchanges there were with it
  pub record Shared : Type 0 where
    pub server : R.State
    pub calls : ℕ

  module _ (C : Client) where
    unfoldable pub check_and_record : String → ℕ → ℕ → ℕ → Shared → Bool × Shared
    unfolding sliding_window_script ttl_of
    check_and_record key max_calls window now s =
        if leb max_calls 0
        then (false, s)
        else (let reply =
              sliding_window_script (redis_key C.key_prefix key) now (minus now window) max_calls
                (member_of C now s.calls) (ttl_of window) now s.server in
            let (allowed, server) = deliver (C.link s.calls) (not C.fail_closed) reply s.server in
            (allowed, record { server = server; calls = suc s.calls }))

    -- during an outage a limiter that fails closed reports 2 ** 31 - 1 calls
    unfoldable pub current_count : String → ℕ → ℕ → Shared → ℕ × Shared
    unfolding current_count_script
    current_count key window now s =
        let reply =
          current_count_script (redis_key C.key_prefix key) (minus now window) now s.server in
        let saturated = if not C.fail_closed then 0 else 2_147_483_647 in
        let (count, server) = deliver (C.link s.calls) saturated reply s.server in
        (count, record { server = server; calls = suc s.calls })

    abbrev pub redis_limiter : RateLimiter
    redis_limiter = record { State = Shared; check_and_record = check_and_record }
