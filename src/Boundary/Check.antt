-- ===== src/Boundary/Check.antt =====
-- `Boundary.check` and `Boundary.evaluate` of src/toolboundary/boundary.py.
pub mod Inversion
pub mod Outcomes
pub mod Halts
use toolboundary.Common.{ℕ, String, Option, none, some}
use toolboundary.Enums.{AccessMode, DecisionType, ViolationReason}
use toolboundary.Exceptions.{
  Message, Violation, violation_text, Approval, Error, violation, approval_required, Result, ok,
  raise,
}
use toolboundary.Audit.{AuditTrail, Metadata, Entry, Stamp, record_event}
use toolboundary.Numeric.{RawValue, FloatParsing}
use toolboundary.Provider.{LocalDecision}
use toolboundary.RateLimiter.Interface.{RateLimiter}
use toolboundary.Boundary.{Settings, Boundary, CallContext}
use toolboundary.Boundary.Action.{Action, lift, ◌>>=◌, ◌>>◌, continue}
use toolboundary.Boundary.Checks.{
  check_kill_switch, check_quarantine, check_validity_window, check_environment,
  check_global_blocked_operations, check_tool_permission, check_operation, check_access_mode,
}
use toolboundary.Boundary.Limits.{
  check_value_limit, check_record_limit, check_rate_limit, check_policy_hooks,
  check_requires_approval,
}

-- the arguments of a call of `check` or `evaluate`
pub record Call : Type 0 where
  pub tool_name : String
  pub operation : Option String
  pub access_mode : AccessMode
  pub value : Option RawValue
  pub record_count : Option RawValue
  pub correlation_id : Option String
  pub metadata : Metadata

-- What one call reads of the world: the environment, the wall clock of the validity check, the
-- rate limiter's clock in each of its two calls, the id of the decision, and the stamp of the
-- audit event.
pub record Moment : Type 0 where
  pub environ : String → Option String
  pub wall : ℕ
  pub global_now : ℕ
  pub tool_now : ℕ
  pub decision_id : String
  pub stamp : Stamp

abbrev pub context : Settings → Call → CallContext
context b c = record {
  agent_name = b.agent_name;
  tool_name = c.tool_name;
  operation = c.operation;
  access_mode = c.access_mode;
  value = c.value;
  record_count = c.record_count;
  correlation_id = c.correlation_id;
  metadata = c.metadata;
}

-- the event that `check` records for an allowed call, an ApprovalRequired and a BoundaryViolation
abbrev pub allow_entry : Settings → Call → Entry
allow_entry b c = record {
  agent_name = b.agent_name;
  decision = DecisionType.allow;
  message = Message.call_allowed c.tool_name c.operation;
  tool_name = some c.tool_name;
  operation = c.operation;
  access_mode = some c.access_mode;
  reason_code = none;
  correlation_id = c.correlation_id;
  metadata = c.metadata;
}

abbrev pub approval_entry : Settings → Call → Approval → Entry
approval_entry b c exc = record (allow_entry b c) {
  decision = DecisionType.approval_required;
  message = exc.message;
  reason_code = some ViolationReason.approval_required;
}

abbrev pub deny_entry : Settings → Call → Violation → Entry
deny_entry b c exc = record (allow_entry b c) {
  decision = DecisionType.deny;
  message = violation_text exc;
  reason_code = exc.rule;
}

-- the `except` clauses and the `else` of `check`; any other exception would pass unrecorded
unfoldable pub audit_outcome : Stamp → Settings → Call → Result (Unit {0}) → AuditTrail → AuditTrail
audit_outcome stamp b c (ok u) trail = (record_event stamp (allow_entry b c) trail).1
audit_outcome stamp b c (raise (approval_required exc)) trail =
    (record_event stamp (approval_entry b c exc) trail).1
audit_outcome stamp b c (raise (violation exc)) trail =
    (record_event stamp (deny_entry b c exc) trail).1
audit_outcome stamp b c (raise _) trail = trail

-- the decision that `evaluate` returns for each outcome
abbrev pub allow_decision : String → Settings → Call → LocalDecision
allow_decision decision_id b c = record {
  decision = DecisionType.allow;
  decision_id = decision_id;
  agent_name = b.agent_name;
  tool_name = c.tool_name;
  operation = c.operation;
  reason_code = none;
  approval_id = none;
  policy_version = b.policy_version;
}

unfoldable pub decide : String → Settings → Call → Result (Unit {0}) → Result LocalDecision
decide decision_id b c (ok u) = ok (allow_decision decision_id b c)
decide decision_id b c (raise (approval_required exc)) =
    ok (record (allow_decision decision_id b c) {
      decision = DecisionType.approval_required;
      reason_code = some ViolationReason.approval_required;
      approval_id = exc.approval_id;
    })
decide decision_id b c (raise (violation exc)) = ok (record (allow_decision decision_id b c) {
  decision = DecisionType.deny;
  reason_code = exc.rule;
})
decide decision_id b c (raise other) = raise other

module _ (F : FloatParsing) (L : RateLimiter) where
  -- the `try` block that `check` and `evaluate` share, word for word
  unfoldable pub run_checks : Moment → Settings → CallContext → Action L.State (Unit {0})
  run_checks m b ctx = do
    lift (check_kill_switch m.environ b ctx)
    lift (check_quarantine b ctx)
    lift (check_validity_window m.wall b ctx)
    lift (check_environment b ctx)
    lift (check_global_blocked_operations b ctx)
    permission ← lift (check_tool_permission b ctx)
    lift (check_operation ctx permission)
    lift (check_access_mode ctx permission)
    lift (check_value_limit F b ctx permission)
    lift (check_record_limit F b ctx permission)
    check_rate_limit L m.global_now m.tool_now b ctx
    lift (check_policy_hooks b.fail_closed_on_hook_error b.policy_hooks ctx)
    lift (check_requires_approval b ctx permission)

  unfoldable pub check :
      {P : Type 0} → Moment → Call → Boundary L.State P → Result (Unit {0}) × Boundary L.State P
  check m c b =
      let (outcome, limiter) = run_checks m b.settings (context b.settings c) b.rate_limiter in
      (
        outcome,
        record b {
          audit = audit_outcome m.stamp b.settings c outcome b.audit;
          rate_limiter = limiter;
        },
      )

  unfoldable pub evaluate :
      {P : Type 0} → Moment → Call → Boundary L.State P → Result LocalDecision × Boundary L.State P
  evaluate m c b =
      let (outcome, limiter) = run_checks m b.settings (context b.settings c) b.rate_limiter in
      (decide m.decision_id b.settings c outcome, record b { rate_limiter = limiter })
