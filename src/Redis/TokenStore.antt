-- ===== src/Redis/TokenStore.antt =====
-- `RedisTokenStore` of src/toolboundary/redis_backend.py: its two methods, as a token store of the
-- proxy. What is written to the log is not modelled.
pub mod SingleUse
pub mod Guarantees
use toolboundary.Common.{ℕ, zero, suc, ◌+◌, ◌/◌, String, Bool, true, false, not, if◌then◌else◌}
use toolboundary.Common.Int.{ℤ, pos, negsuc, pos_part, ltb_ℤ, minus}
use toolboundary.Tokens.Store.{TokenStore}
use toolboundary.Redis.Server.{second, Delivery, Strings}
use toolboundary.Redis.Key.{redis_key}
use toolboundary.Redis.Limiter.{deliver}

-- `-n`
unfoldable pub negated : ℕ → ℤ
negated zero = pos 0
negated (suc n) = negsuc n

-- `int(x)` of a span in nanoseconds, in whole seconds towards zero
unfoldable pub whole_seconds : ℤ → ℤ
unfolding negated
whole_seconds (pos n) = pos (n / second)
whole_seconds (negsuc n) = negated (suc n / second)

unfoldable pub plus_one : ℤ → ℤ
plus_one (pos n) = pos (suc n)
plus_one (negsuc zero) = pos 0
plus_one (negsuc (suc n)) = negsuc n

-- `int(expires_at - time.time()) + 1`
unfoldable pub ttl_until : ℕ → ℕ → ℤ
unfolding whole_seconds plus_one
ttl_until expires_at now = plus_one (whole_seconds (minus expires_at now))

pub record StoreClient : Type 0 where
  pub key_prefix : String
  pub fail_closed : Bool
  pub link : ℕ → Delivery

module _ (R : Strings) where
  -- the server, and how many exchanges there were with it
  pub record Ledger : Type 0 where
    pub server : R.State
    pub calls : ℕ

  module _ (C : StoreClient) where
    unfoldable pub mark_used : String → ℕ → ℕ → Ledger → Bool × Ledger
    unfolding ttl_until
    mark_used token_id expires_at now s =
        let ttl = ttl_until expires_at now in
        if not (ltb_ℤ (pos 0) ttl)
        then (false, s)
        else (let reply =
              R.set_nx_ex (redis_key C.key_prefix token_id) "1" (pos_part ttl) now s.server in
            let (created, server) = deliver (C.link s.calls) (not C.fail_closed) reply s.server in
            (created, record { server = server; calls = suc s.calls }))

    unfoldable pub is_used : String → ℕ → Ledger → Bool × Ledger
    is_used token_id now s =
        let reply : Bool × R.State =
          (R.exists (redis_key C.key_prefix token_id) now s.server, s.server) in
        let (used, server) = deliver (C.link s.calls) C.fail_closed reply s.server in
        (used, record { server = server; calls = suc s.calls })

    abbrev pub redis_store : TokenStore
    redis_store = record { State = Ledger; mark_used = mark_used }
