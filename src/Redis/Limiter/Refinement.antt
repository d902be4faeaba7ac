-- ===== src/Redis/Limiter/Refinement.antt =====
-- The limiter over Redis against the specification, over whole sequences of calls.
use toolboundary.Common.{ℕ, suc, ◌≡◌, String, [], List}
use toolboundary.RateLimiter.History.{Request, InOrder, spec_run, run, run-eq-spec_run}
use toolboundary.Redis.Server.{answered, SortedSets, SortedSetLaws}
use toolboundary.Redis.Key.{redis_key}
use toolboundary.Redis.Limiter.{Client, Shared, member_of, redis_limiter}
use toolboundary.Redis.Limiter.Contract.{redis_laws, redis_laws-start}

module _ (R : SortedSets) (laws : SortedSetLaws R) (C : Client)
    (always_answered : (i : ℕ) → C.link i ≡ answered)
    (distinct : (t t' i i' : ℕ) → member_of C t i ≡ member_of C t' i' → i ≡ i') where
  -- While a server with the documented commands answers every call, draws no member twice, and
  -- starts with none of the limiter's keys, the limiter over Redis, called at times that do not go
  -- back, gives for every call on every key, whichever replica sends it, the answer of the
  -- specification that remembers all admitted calls: admitted exactly when fewer than max_calls of
  -- the key are younger than the window. A window of `suc v` counts the calls up to the age `v`: a
  -- call as old as the window is not counted.
  pub shared_refines_history :
      (v : ℕ) (rs : List Request) (s : Shared R)
      → ((k : String) (t : ℕ) → laws.entries s.server (redis_key C.key_prefix k) t ≡ [])
      → InOrder 0 rs
      → run (redis_limiter R C) (suc v) rs s ≡ spec_run v rs []
  shared_refines_history v rs s empty o =
      let contract = redis_laws R laws C always_answered distinct v in
      let start = redis_laws-start R laws C always_answered distinct v s empty in
      run-eq-spec_run (redis_limiter R C) (suc v) v contract rs 0 s []
        (record { valid = start.0; same_count = λ k t le. start.1 k t }) o
