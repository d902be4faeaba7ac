-- ===== src/Redis/Limiter/Outage.antt =====
-- The limiter over Redis when the server does not answer.
use toolboundary.Common.{ℕ, ◌≤◌, ◌≡◌, ◌⊎◌, inl, inr, String, true, false, some, arith, Option-cases}
use toolboundary.Boundary.Key.{global_key, tool_key}
use toolboundary.Common.Dict.{lookup}
use toolboundary.Redis.Server.{Delivery-cases, answered, SortedSets}
use toolboundary.Redis.Limiter.{Client, Shared, check_and_record, redis_limiter}
use toolboundary.Exceptions.{ok}
use toolboundary.Numeric.{FloatParsing}
use toolboundary.Permissions.{ToolPermission}
use toolboundary.Boundary.{Settings, Boundary, CallContext}
use toolboundary.Boundary.Limits.{hour, check_rate_limit, check_tool_rate}
use toolboundary.Boundary.Check.{Call, Moment, context, check}
use toolboundary.Boundary.Guarantees.{check_iff}

module _ (R : SortedSets) (C : Client) where
  -- no exchange from now on gets its reply
  abbrev pub IsDown : Shared R → Type 0
  IsDown s = (i : ℕ) → s.calls ≤ i → ¬ (C.link i ≡ answered)

  module _ (closed : C.fail_closed ≡ true) where
    refused :
        (key : String) (m w now : ℕ) (s : Shared R)
        → IsDown s
        → (check_and_record R C key m w now s).0 ≡ false
    unfolding check_and_record
    refused key m w now s down = elim (Delivery-cases (C.link s.calls)) [
      | inl up ↦ absurd (down s.calls (omega arith) up)
      | inr (inl e) ↦ rw (e, closed) (ground arith)
      | inr (inr e) ↦ rw (e, closed) (ground arith)
    ]

    tool_refused :
        (now : ℕ) (b : Settings) (ctx : CallContext) (s : Shared R) (p : ToolPermission) (most : ℕ)
        → IsDown s
        → lookup ctx.tool_name b.permissions ≡ some p
        → p.max_calls_per_hour ≡ some most
        → ¬ ((check_tool_rate (redis_limiter R C) now b ctx s).0 ≡ ok tt)
    unfolding check_tool_rate
    tool_refused now b ctx s p most down listed limit h =
        ground (arith, refused (tool_key b.agent_name ctx.tool_name) most hour now s down)

    global_refused :
        (now now' all : ℕ) (b : Settings) (ctx : CallContext) (s : Shared R)
        → IsDown s
        → b.max_actions_per_hour ≡ some all
        → ¬ ((check_rate_limit (redis_limiter R C) now now' b ctx s).0 ≡ ok tt)
    unfolding check_rate_limit
    global_refused now now' all b ctx s down limit h =
        ground (arith, refused (global_key b.agent_name) all hour now s down)

    tool_refused_after :
        (now now' : ℕ) (b : Settings) (ctx : CallContext) (s : Shared R) (p : ToolPermission)
        (most : ℕ)
        → IsDown s
        → lookup ctx.tool_name b.permissions ≡ some p
        → p.max_calls_per_hour ≡ some most
        → ¬ ((check_rate_limit (redis_limiter R C) now now' b ctx s).0 ≡ ok tt)
    unfolding check_rate_limit check_tool_rate
    tool_refused_after now now' b ctx s p most down listed limit h =
        elim (Option-cases b.max_actions_per_hour) [
          | inl e ↦ tool_refused now' b ctx s p most down listed limit (rw e at h)
          | inr (all, e) ↦ global_refused now now' all b ctx s down e h
        ]

    -- With a limiter over Redis that fails closed, while no exchange with the server gets its
    -- reply, whether the server has run the script or not, `check` allows no call of an agent that
    -- has a max_actions_per_hour, nor of a tool that has a max_calls_per_hour.
    pub outage_denies :
        (F : FloatParsing) {P : Type 0} (m : Moment) (c : Call) (b : Boundary (Shared R) P)
        → IsDown b.rate_limiter
        → ((all : ℕ) × (b.max_actions_per_hour ≡ some all))
          ⊎ ((p : ToolPermission) × (most : ℕ) × (lookup c.tool_name b.permissions ≡ some p)
              × (p.max_calls_per_hour ≡ some most))
        → ¬ ((check F (redis_limiter R C) m c b).0 ≡ ok tt)
    outage_denies F m c b down (inl (all, limit)) h =
        global_refused m.global_now m.tool_now all b.settings (context b.settings c) b.rate_limiter
          down limit ((check_iff F (redis_limiter R C) m c b).0 h).1
    outage_denies F m c b down (inr (p, most, listed, limit)) h =
        tool_refused_after m.global_now m.tool_now b.settings (context b.settings c) b.rate_limiter
          p most down listed limit ((check_iff F (redis_limiter R C) m c b).0 h).1
