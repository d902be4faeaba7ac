-- ===== src/Boundary/Policy/Decision.antt =====
-- The `try` block of `check` and `evaluate` lets a call pass exactly when the policy permits it
-- and the rate limiter admits it.
use toolboundary.Common.{◌≡◌, ◌↔◌}
use toolboundary.Exceptions.{ok}
use toolboundary.Numeric.{FloatParsing}
use toolboundary.RateLimiter.Interface.{RateLimiter}
use toolboundary.Boundary.{Settings}
use toolboundary.Boundary.Limits.{check_rate_limit}
use toolboundary.Boundary.Check.{Call, Moment, context, run_checks}
use toolboundary.Boundary.Check.Inversion.{Passed, run_checks-Passed, Passed-run_checks}
use toolboundary.Boundary.Policy.{Permits}
use toolboundary.Boundary.Policy.Static.{
  check_kill_switch_iff, check_quarantine_iff, check_validity_window_iff, check_environment_iff,
  check_blocked_iff, check_tool_permission_iff, check_operation_iff, check_access_mode_iff,
  check_requires_approval_iff,
}
use toolboundary.Boundary.Policy.Amounts.{
  check_value_limit_iff, check_record_limit_iff, check_policy_hooks_iff,
}

module _ (F : FloatParsing) (L : RateLimiter) (m : Moment) (b : Settings) (c : Call)
    (s s' : L.State) where
  abbrev RatePasses : Type 0
  RatePasses = check_rate_limit L m.global_now m.tool_now b (context b c) s ≡ (ok tt, s')

  to_policy : Passed F L m b (context b c) s s' → Permits F m b c
  to_policy p =
      let ctx = context b c in
      let window = (check_validity_window_iff b ctx m.wall).0 p.validity_window in
      record {
        permission = p.permission;
        alive = (check_kill_switch_iff b ctx m.environ).0 p.kill_switch;
        active = (check_quarantine_iff b ctx).0 p.quarantine;
        begun = window.0;
        unexpired = window.1;
        placed = (check_environment_iff b ctx).0 p.environment;
        unblocked = (check_blocked_iff b ctx).0 p.blocked;
        listed = (check_tool_permission_iff b ctx p.permission).0 p.tool_permission;
        operation = (check_operation_iff ctx p.permission).0 p.operation;
        access = (check_access_mode_iff ctx p.permission).0 p.access_mode;
        value = (check_value_limit_iff ctx p.permission F b).0 p.value_limit;
        records = (check_record_limit_iff ctx p.permission F b).0 p.record_limit;
        hooks =
            (check_policy_hooks_iff b.fail_closed_on_hook_error ctx b.policy_hooks).0
              p.policy_hooks;
        unattended = (check_requires_approval_iff ctx p.permission b).0 p.requires_approval;
      }

  from_policy : Permits F m b c → RatePasses → Passed F L m b (context b c) s s'
  from_policy p rate =
      let ctx = context b c in
      record {
        permission = p.permission;
        kill_switch = (check_kill_switch_iff b ctx m.environ).1 p.alive;
        quarantine = (check_quarantine_iff b ctx).1 p.active;
        validity_window = (check_validity_window_iff b ctx m.wall).1 (p.begun, p.unexpired);
        environment = (check_environment_iff b ctx).1 p.placed;
        blocked = (check_blocked_iff b ctx).1 p.unblocked;
        tool_permission = (check_tool_permission_iff b ctx p.permission).1 p.listed;
        operation = (check_operation_iff ctx p.permission).1 p.operation;
        access_mode = (check_access_mode_iff ctx p.permission).1 p.access;
        value_limit = (check_value_limit_iff ctx p.permission F b).1 p.value;
        record_limit = (check_record_limit_iff ctx p.permission F b).1 p.records;
        rate_limit = rate;
        policy_hooks =
            (check_policy_hooks_iff b.fail_closed_on_hook_error ctx b.policy_hooks).1 p.hooks;
        requires_approval = (check_requires_approval_iff ctx p.permission b).1 p.unattended;
      }

  pub run_checks_iff :
      (run_checks F L m b (context b c) s ≡ (ok tt, s')) ↔ (Permits F m b c × RatePasses)
  run_checks_iff = (
    λ h. let p = run_checks-Passed F L m b (context b c) s s' h in (to_policy p, p.rate_limit),
    λ h. Passed-run_checks F L m b (context b c) s s' (from_policy h.0 h.1),
  )
