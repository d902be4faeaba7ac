-- ===== src/Boundary/Budget.antt =====
-- `check` against the rate limits, for any rate limiter with the sliding-window contract.
use package.text.Mathlib.TextLemmas.{append_cancel_left}
use toolboundary.Common.{
  ℕ, suc, ◌+◌, ◌≤◌, ◌<◌, ◌≡◌, ◌≢◌, String, some, arith, ltb→lt, Option-cases, eq_refl, eq_iff, ap,
  subst, inl, inr,
}
use toolboundary.Common.Dict.{lookup}
use toolboundary.Exceptions.{Result, ok}
use toolboundary.Numeric.{FloatParsing}
use toolboundary.Permissions.{ToolPermission}
use toolboundary.RateLimiter.Interface.{RateLimiter, SlidingWindowLaws}
use toolboundary.Boundary.{Settings, Boundary, CallContext}
use toolboundary.Boundary.Key.{global_key, tool_key}
use toolboundary.Boundary.Limits.{hour, check_tool_rate, check_rate_limit}
use toolboundary.Boundary.Check.{Call, Moment, context, check}
use toolboundary.Boundary.Guarantees.{check_iff, check_limiter}

-- the key of a tool is that of the agent only for a tool named "__global__"
tool_key-other :
    (agent tool : String) → tool ≢ "__global__" → tool_key agent tool ≢ global_key agent
unfolding tool_key global_key
tool_key-other agent tool named same =
    named (append_cancel_left "::" tool "__global__" (append_cancel_left agent _ _ same))

module _ (L : RateLimiter) (v : ℕ) (laws : SlidingWindowLaws L hour v) (b : Settings)
    (ctx : CallContext) where
  -- a tool that passes had room in its own window
  tool_room :
      (now : ℕ) (s : L.State) (p : ToolPermission) (most : ℕ)
      → laws.Valid s now
      → lookup ctx.tool_name b.permissions ≡ some p
      → p.max_calls_per_hour ≡ some most
      → (check_tool_rate L now b ctx s).0 ≡ ok tt
      → laws.count (tool_key b.agent_name ctx.tool_name) now s < most
  unfolding check_tool_rate
  tool_room now s p most valid listed limit h =
      let key = tool_key b.agent_name ctx.tool_name in
      let admits = laws.admits key most now s valid in ltb→lt _ _ (ground (arith, admits))

  global_room :
      (now now' : ℕ) (s : L.State) (most : ℕ)
      → laws.Valid s now
      → b.max_actions_per_hour ≡ some most
      → (check_rate_limit L now now' b ctx s).0 ≡ ok tt
      → laws.count (global_key b.agent_name) now s < most
  unfolding check_rate_limit
  global_room now now' s most valid limit h =
      ltb→lt _ _ (ground (arith, laws.admits (global_key b.agent_name) most now s valid))

  -- the tool's own check counts nothing under another key
  tool_other :
      (j : String) (now t : ℕ) (s : L.State)
      → laws.Valid s now
      → now ≤ t
      → tool_key b.agent_name ctx.tool_name ≢ j
      → laws.count j t (check_tool_rate L now b ctx s).1 ≡ laws.count j t s
  unfolding check_tool_rate
  tool_other j now t s valid le other = elim (Option-cases (lookup ctx.tool_name b.permissions)) [
    | inl e ↦ ground arith
    | inr (p, e) ↦ elim (Option-cases p.max_calls_per_hour) [
      | inl e' ↦ ground arith
      | inr (most, e') ↦
          let key = tool_key b.agent_name ctx.tool_name in
          ground (arith, laws.counts key j most now t s valid le, eq_iff key j)
    ]
  ]

  -- the global check, and what it leaves to the tool's
  module _ (now now' : ℕ) (s : L.State) (valid : laws.Valid s now) (le : now ≤ now') where
    abbrev after_global : ℕ → L.State
    after_global most = (L.check_and_record (global_key b.agent_name) most hour now s).1

    global_keeps :
        (j : String) (most : ℕ) → laws.count j now' s ≤ laws.count j now' (after_global most)
    global_keeps j most =
        ground (arith, laws.counts (global_key b.agent_name) j most now now' s valid le)

    valid_after : (most : ℕ) → laws.Valid (after_global most) now'
    valid_after most =
        laws.valid_later _ now now' (laws.valid_step (global_key b.agent_name) most now s valid) le

    tool_room_after :
        (p : ToolPermission) (most : ℕ)
        → lookup ctx.tool_name b.permissions ≡ some p
        → p.max_calls_per_hour ≡ some most
        → (check_rate_limit L now now' b ctx s).0 ≡ ok tt
        → laws.count (tool_key b.agent_name ctx.tool_name) now' s < most
    unfolding check_rate_limit
    tool_room_after p most listed limit h = elim (Option-cases b.max_actions_per_hour) [
      | inl e ↦
          tool_room now' s p most (laws.valid_later s now now' valid le) listed limit (ground arith)
      | inr (all, e) ↦
          let room =
            tool_room now' (after_global all) p most (valid_after all) listed limit
              (ground arith) in
          omega (arith, room, global_keeps (tool_key b.agent_name ctx.tool_name) all)
    ]

    counted_after :
        (all : ℕ)
        → b.max_actions_per_hour ≡ some all
        → ctx.tool_name ≢ "__global__"
        → now' ≤ now + v
        → (check_rate_limit L now now' b ctx s).0 ≡ ok tt
        → laws.count (global_key b.agent_name) now' (check_rate_limit L now now' b ctx s).1
          ≡ suc (laws.count (global_key b.agent_name) now' s)
    unfolding check_rate_limit
    counted_after all e named recent h =
        let key = global_key b.agent_name in
        ground (
          arith,
          laws.counts key key all now now' s valid le,
          tool_other key now' now' (after_global all) (valid_after all) (omega arith)
              (tool_key-other b.agent_name ctx.tool_name named),
          eq_refl key,
        )

module _ (F : FloatParsing) (L : RateLimiter) (v : ℕ) (laws : SlidingWindowLaws L hour v)
    {P : Type 0} where
  -- With a limiter that keeps the sliding-window contract, and clock readings that do not go
  -- back, a call that `check` allows found fewer than max_actions_per_hour calls of the agent in
  -- the hour, and fewer than the permission's max_calls_per_hour calls of the tool.
  pub allowed_within_budget :
      (m : Moment) (c : Call) (b : Boundary L.State P)
      → laws.Valid b.rate_limiter m.global_now
      → m.global_now ≤ m.tool_now
      → (check F L m c b).0 ≡ ok tt
      → ((all : ℕ)
          → b.max_actions_per_hour ≡ some all
          → laws.count (global_key b.agent_name) m.global_now b.rate_limiter < all)
        × ((p : ToolPermission) (most : ℕ)
            → lookup c.tool_name b.permissions ≡ some p
            → p.max_calls_per_hour ≡ some most
            → laws.count (tool_key b.agent_name c.tool_name) m.tool_now b.rate_limiter < most)
  allowed_within_budget m c b valid le h =
      let passed = ((check_iff F L m c b).0 h).1 in
      let ctx = context b.settings c in
      (
        λ all e.
            global_room L v laws b.settings ctx m.global_now m.tool_now b.rate_limiter all valid e
              passed,
        λ p most listed limit.
            tool_room_after L v laws b.settings ctx m.global_now m.tool_now b.rate_limiter valid le
              p most listed limit passed,
      )

  -- With a limiter that keeps the sliding-window contract, clock readings that do not go back and
  -- are so close that the second one's window counts the first, an allowed call, of an agent with a
  -- max_actions_per_hour and of a tool that is not named "__global__", is exactly one more call in
  -- the agent's window.
  pub allowed_is_counted :
      (m : Moment) (c : Call) (b : Boundary L.State P) (all : ℕ)
      → laws.Valid b.rate_limiter m.global_now
      → m.global_now ≤ m.tool_now
      → m.tool_now ≤ m.global_now + v
      → b.max_actions_per_hour ≡ some all
      → c.tool_name ≢ "__global__"
      → (check F L m c b).0 ≡ ok tt
      → laws.count (global_key b.agent_name) m.tool_now (check F L m c b).1.rate_limiter
        ≡ suc (laws.count (global_key b.agent_name) m.tool_now b.rate_limiter)
  allowed_is_counted m c b all valid le recent limit named h =
      let passed = check_limiter F L m c b h in
      let now = m.global_now in
      let counted =
        counted_after L v laws b.settings (context b.settings c) now m.tool_now b.rate_limiter valid
          le all limit named recent (ap (λ (p : Result (Unit {0}) × L.State). p.0) passed) in
      subst
        (λ (t : Result (Unit {0}) × L.State).
          laws.count (global_key b.agent_name) m.tool_now t.1
          ≡ suc (laws.count (global_key b.agent_name) m.tool_now b.rate_limiter))
        passed counted
