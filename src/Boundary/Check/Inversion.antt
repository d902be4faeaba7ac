-- ===== src/Boundary/Check/Inversion.antt =====
-- What an allowed call has passed, and in which state each step ran.
use toolboundary.Common.{◌≡◌, ◌∙◌, ap}
use toolboundary.Exceptions.{Result, ok}
use toolboundary.Numeric.{FloatParsing}
use toolboundary.Permissions.{ToolPermission}
use toolboundary.RateLimiter.Interface.{RateLimiter}
use toolboundary.Boundary.{Settings, CallContext}
use toolboundary.Boundary.Action.{lift-passed, guard-passed, step-passed}
use toolboundary.Boundary.Checks.{
  check_kill_switch, check_quarantine, check_validity_window, check_environment,
  check_global_blocked_operations, check_tool_permission, check_operation, check_access_mode,
}
use toolboundary.Boundary.Limits.{
  check_value_limit, check_record_limit, check_rate_limit, check_policy_hooks,
  check_requires_approval,
}
use toolboundary.Boundary.Check.{Moment, run_checks}

-- every step has passed
pub record Passed (F : FloatParsing) (L : RateLimiter) (m : Moment) (b : Settings)
    (ctx : CallContext) (s s' : L.State) : Type 0 where
  pub permission : ToolPermission
  pub kill_switch : check_kill_switch m.environ b ctx ≡ ok tt
  pub quarantine : check_quarantine b ctx ≡ ok tt
  pub validity_window : check_validity_window m.wall b ctx ≡ ok tt
  pub environment : check_environment b ctx ≡ ok tt
  pub blocked : check_global_blocked_operations b ctx ≡ ok tt
  pub tool_permission : check_tool_permission b ctx ≡ ok permission
  pub operation : check_operation ctx permission ≡ ok tt
  pub access_mode : check_access_mode ctx permission ≡ ok tt
  pub value_limit : check_value_limit F b ctx permission ≡ ok tt
  pub record_limit : check_record_limit F b ctx permission ≡ ok tt
  pub rate_limit : check_rate_limit L m.global_now m.tool_now b ctx s ≡ (ok tt, s')
  pub policy_hooks : check_policy_hooks b.fail_closed_on_hook_error b.policy_hooks ctx ≡ ok tt
  pub requires_approval : check_requires_approval b ctx permission ≡ ok tt

module _ (F : FloatParsing) (L : RateLimiter) (m : Moment) (b : Settings) (ctx : CallContext)
    (s s' : L.State) where
  pub run_checks-Passed : run_checks F L m b ctx s ≡ (ok tt, s') → Passed F L m b ctx s s'
  unfolding run_checks
  run_checks-Passed h =
      let p1 = guard-passed (check_kill_switch m.environ b ctx) _ h in
      let p2 = guard-passed (check_quarantine b ctx) _ p1.1 in
      let p3 = guard-passed (check_validity_window m.wall b ctx) _ p2.1 in
      let p4 = guard-passed (check_environment b ctx) _ p3.1 in
      let p5 = guard-passed (check_global_blocked_operations b ctx) _ p4.1 in
      let p6 = lift-passed (check_tool_permission b ctx) _ p5.1 in
      let p7 = guard-passed (check_operation ctx p6.0) _ p6.2 in
      let p8 = guard-passed (check_access_mode ctx p6.0) _ p7.1 in
      let p9 = guard-passed (check_value_limit F b ctx p6.0) _ p8.1 in
      let p10 = guard-passed (check_record_limit F b ctx p6.0) _ p9.1 in
      let p11 = step-passed (check_rate_limit L m.global_now m.tool_now b ctx) _ s p10.1 in
      let p12 =
        guard-passed (check_policy_hooks b.fail_closed_on_hook_error b.policy_hooks ctx) _ p11.2 in
      record {
        permission = p6.0;
        kill_switch = p1.0;
        quarantine = p2.0;
        validity_window = p3.0;
        environment = p4.0;
        blocked = p5.0;
        tool_permission = p6.1;
        operation = p7.0;
        access_mode = p8.0;
        value_limit = p9.0;
        record_limit = p10.0;
        rate_limit =
            p11.1
            ∙ ap (λ (t : L.State). (ok tt, t))
                (ap (λ (p : Result (Unit {0}) × L.State). p.1) p12.1);
        policy_hooks = p12.0;
        requires_approval = ap (λ (p : Result (Unit {0}) × L.State). p.0) p12.1;
      }

  -- and the other way round: if every step passes, so does the whole
  pub Passed-run_checks : Passed F L m b ctx s s' → run_checks F L m b ctx s ≡ (ok tt, s')
  unfolding run_checks
  Passed-run_checks p = rw (
    p.kill_switch, p.quarantine, p.validity_window, p.environment, p.blocked, p.tool_permission,
    p.operation, p.access_mode, p.value_limit, p.record_limit, p.rate_limit, p.policy_hooks,
    p.requires_approval,
  )
