-- ===== src/Boundary/Check/Outcomes.antt =====
-- How the checks can end: only as an allowed call, an ApprovalRequired or a BoundaryViolation,
-- and with the rate limiter untouched unless the rate check was reached.
use toolboundary.Common.{
  ℕ, ◌≡◌, refl, String, Bool, true, false, Option, none, some, List, [], ◌∷◌, arith, inl, inr,
  Option-cases,
}
use toolboundary.Enums.{DecisionType, ViolationReason}
use toolboundary.Exceptions.{
  violation, approval_required, configuration_error, denied_by_provider, unavailable_provider,
  consumed, Result, ok, raise,
}
use toolboundary.Numeric.{FloatParsing}
use toolboundary.Permissions.{ToolPermission}
use toolboundary.RateLimiter.Interface.{RateLimiter}
use toolboundary.Boundary.{Settings, CallContext, PolicyHook, HookAnswer}
use toolboundary.Boundary.Action.{Action, lift, continue, ◌>>=◌, ◌>>◌}
use toolboundary.Boundary.Checks.{
  check_kill_switch, check_quarantine, check_validity_window, check_environment,
  check_global_blocked_operations, check_tool_permission, check_operation, check_access_mode,
}
use toolboundary.Boundary.Limits.{
  hour, check_number, check_value_limit, check_count, check_record_limit, check_tool_rate,
  check_rate_limit, check_hook, check_policy_hooks, check_requires_approval,
}
use toolboundary.Boundary.Key.{global_key}
use toolboundary.Boundary.Check.{Moment, run_checks}

-- the decision that an outcome stands for
abbrev pub decision_of {ℓ} : {A : Type ℓ} → Result A → Option DecisionType
decision_of (ok a) = some DecisionType.allow
decision_of (raise (violation v)) = some DecisionType.deny
decision_of (raise (approval_required a)) = some DecisionType.approval_required
decision_of (raise _) = none

-- the reason code of an outcome
abbrev pub reason_of {ℓ} : {A : Type ℓ} → Result A → Option ViolationReason
reason_of (raise (violation v)) = v.rule
reason_of (raise (approval_required a)) = some ViolationReason.approval_required
reason_of _ = none

-- reasons that are given before the rate check is reached
abbrev pub is_early : Option ViolationReason → Bool
is_early none = true
is_early (some ViolationReason.rate_limit_exceeded) = false
is_early (some ViolationReason.policy_hook_denied) = false
is_early (some ViolationReason.approval_required) = false
is_early (some _) = true

-- the outcome of a check that may deny, for a reason given before the rate check
abbrev pub Early {ℓ} : {A : Type ℓ} → Result A → Type 0
Early (ok a) = Unit
Early (raise (violation v)) = is_early v.rule ≡ true
Early (raise _) = ⊥

-- the outcome of a check at or behind the rate check
abbrev pub Late {ℓ} : {A : Type ℓ} → Result A → Type 0
Late (ok a) = Unit
Late (raise (violation v)) = is_early v.rule ≡ false
Late (raise (approval_required a)) = Unit
Late (raise _) = ⊥

module _ (b : Settings) (ctx : CallContext) where
  check_kill_switch-Early :
      (environ : String → Option String) → Early (check_kill_switch environ b ctx)
  unfolding check_kill_switch
  check_kill_switch-Early environ = ground arith

  check_quarantine-Early : Early (check_quarantine b ctx)
  unfolding check_quarantine
  check_quarantine-Early = ground arith

  check_validity_window-Early : (now : ℕ) → Early (check_validity_window now b ctx)
  unfolding check_validity_window
  check_validity_window-Early now = ground arith

  check_environment-Early : Early (check_environment b ctx)
  unfolding check_environment
  check_environment-Early = ground arith

  check_blocked-Early : Early (check_global_blocked_operations b ctx)
  unfolding check_global_blocked_operations
  check_blocked-Early = ground arith

  check_tool_permission-Early : Early (check_tool_permission b ctx)
  unfolding check_tool_permission
  check_tool_permission-Early = ground arith

  check_value_limit-Early :
      (F : FloatParsing) (p : ToolPermission) → Early (check_value_limit F b ctx p)
  unfolding check_value_limit check_number
  check_value_limit-Early F p = ground arith

  check_record_limit-Early :
      (F : FloatParsing) (p : ToolPermission) → Early (check_record_limit F b ctx p)
  unfolding check_record_limit check_count
  check_record_limit-Early F p = ground arith

  check_requires_approval-Late : (p : ToolPermission) → Late (check_requires_approval b ctx p)
  unfolding check_requires_approval
  check_requires_approval-Late p = ground arith

  check_tool_rate-Late :
      (L : RateLimiter) (now : ℕ) (s : L.State) → Late (check_tool_rate L now b ctx s).0
  unfolding check_tool_rate
  check_tool_rate-Late L now s = ground arith

  check_rate_limit-Late :
      (L : RateLimiter) (now now' : ℕ) (s : L.State) → Late (check_rate_limit L now now' b ctx s).0
  unfolding check_rate_limit
  check_rate_limit-Late L now now' s = elim (Option-cases b.max_actions_per_hour) [
    | inl e ↦ ground (arith, check_tool_rate-Late L now' s)
    | inr (most, e) ↦
        let after = L.check_and_record (global_key b.agent_name) most hour now s in
        ground (arith, check_tool_rate-Late L now' after.1)
  ]

module _ (ctx : CallContext) where
  check_operation-Early : (p : ToolPermission) → Early (check_operation ctx p)
  unfolding check_operation
  check_operation-Early p = ground arith

  check_access_mode-Early : (p : ToolPermission) → Early (check_access_mode ctx p)
  unfolding check_access_mode
  check_access_mode-Early p = ground arith

  check_hook-Late :
      (closed : Bool) (h : PolicyHook) (a : HookAnswer) → Late (check_hook closed ctx h a)
  unfolding check_hook
  check_hook-Late closed h a = ground arith

  check_policy_hooks-Late :
      (closed : Bool) (hooks : List PolicyHook) → Late (check_policy_hooks closed hooks ctx)
  unfolding check_policy_hooks
  check_policy_hooks-Late closed [] = tt
  check_policy_hooks-Late closed (h ∷ hooks) =
      ground (arith, check_hook-Late closed h (h.ask ctx), check_policy_hooks-Late closed hooks)

-- How a sequence of checks from the state `s` ends: after a denial for an early reason the rate
-- limiter is as it was.
abbrev pub Ends : {S A : Type 0} → S → Result A × S → Type 0
Ends s (ok a, s') = Unit
Ends s (raise (violation v), s') = is_early v.rule ≡ true → s' ≡ s
Ends s (raise (approval_required a), s') = Unit
Ends s (raise _, s') = ⊥

module _ {S B : Type 0} (s : S) where
  Early-step :
      {A : Type 0} (r : Result A) (f : A → Action S B)
      → Early r
      → ((a : A) → Ends s (f a s))
      → Ends s ((lift r >>= f) s)
  Early-step (ok a) f early rest = rest a
  Early-step (raise (violation v)) f early rest = λ _. refl
  Early-step (raise (approval_required a)) f early rest = absurd early
  Early-step (raise (configuration_error m)) f early rest = absurd early
  Early-step (raise (denied_by_provider m)) f early rest = absurd early
  Early-step (raise (unavailable_provider m)) f early rest = absurd early
  Early-step (raise (consumed m)) f early rest = absurd early

  Late-step :
      {A : Type 0} (r : Result A) (s' : S) (f : A → Action S B)
      → Late r
      → ((a : A) → Late (f a s').0)
      → Late (continue r f s').0
  Late-step (ok a) s' f late rest = rest a
  Late-step (raise (violation v)) s' f late rest = late
  Late-step (raise (approval_required a)) s' f late rest = tt
  Late-step (raise (configuration_error m)) s' f late rest = absurd late
  Late-step (raise (denied_by_provider m)) s' f late rest = absurd late
  Late-step (raise (unavailable_provider m)) s' f late rest = absurd late
  Late-step (raise (consumed m)) s' f late rest = absurd late

  Late-Ends : (r : Result B) (s' : S) → Late r → Ends s (r, s')
  Late-Ends (ok a) s' late = tt
  Late-Ends (raise (violation v)) s' late = λ early. cc (late, early)
  Late-Ends (raise (approval_required a)) s' late = tt
  Late-Ends (raise (configuration_error m)) s' late = late
  Late-Ends (raise (denied_by_provider m)) s' late = late
  Late-Ends (raise (unavailable_provider m)) s' late = late
  Late-Ends (raise (consumed m)) s' late = late

module _ (F : FloatParsing) (L : RateLimiter) (m : Moment) (b : Settings) (ctx : CallContext) where
  -- the checks behind those of the amounts
  abbrev last_checks : ToolPermission → Action L.State (Unit {0})
  last_checks p = do
    check_rate_limit L m.global_now m.tool_now b ctx
    lift (check_policy_hooks b.fail_closed_on_hook_error b.policy_hooks ctx)
    lift (check_requires_approval b ctx p)

  last_checks-Late : (p : ToolPermission) (s : L.State) → Late (last_checks p s).0
  last_checks-Late p s =
      let rate = check_rate_limit L m.global_now m.tool_now b ctx s in
      let hooks = check_policy_hooks b.fail_closed_on_hook_error b.policy_hooks ctx in
      Late-step s rate.0 rate.1 _ (check_rate_limit-Late b ctx L m.global_now m.tool_now s) λ _.
        Late-step s hooks rate.1 _
          (check_policy_hooks-Late ctx b.fail_closed_on_hook_error b.policy_hooks)
          (λ _. check_requires_approval-Late b ctx p)

  pub run_checks-Ends : (s : L.State) → Ends s (run_checks F L m b ctx s)
  unfolding run_checks
  run_checks-Ends s = Early-step s _ _ (check_kill_switch-Early b ctx m.environ) λ _.
      Early-step s _ _ (check_quarantine-Early b ctx) λ _.
        Early-step s _ _ (check_validity_window-Early b ctx m.wall) λ _.
          Early-step s _ _ (check_environment-Early b ctx) λ _.
            Early-step s _ _ (check_blocked-Early b ctx) λ _.
              Early-step s _ _ (check_tool_permission-Early b ctx) λ p.
                Early-step s _ _ (check_operation-Early ctx p) λ _.
                  Early-step s _ _ (check_access_mode-Early ctx p) λ _.
                    Early-step s _ _ (check_value_limit-Early b ctx F p) λ _.
                      Early-step s _ _ (check_record_limit-Early b ctx F p) λ _.
                        Late-Ends s (last_checks p s).0 (last_checks p s).1 (last_checks-Late p s)
