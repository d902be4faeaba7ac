-- ===== src/Boundary/Guarantees.antt =====
-- What `check` and `evaluate` of src/toolboundary/boundary.py guarantee.
use toolboundary.Common.{◌≡◌, ◌≢◌, ◌↔◌, refl, String, true, Option, some, map, arith, ap}
use toolboundary.Audit.{AuditEvent, AuditTrail, Stamp, event_of, emit, record_event}
use toolboundary.Enums.{ViolationReason}
use toolboundary.Exceptions.{
  Violation, violation, approval_required, configuration_error, denied_by_provider,
  unavailable_provider, consumed, Result, ok, raise,
}
use toolboundary.Numeric.{FloatParsing}
use toolboundary.Provider.{LocalDecision}
use toolboundary.RateLimiter.Interface.{RateLimiter}
use toolboundary.Boundary.{Settings, Boundary}
use toolboundary.Boundary.Limits.{check_rate_limit}
use toolboundary.Boundary.Check.{
  Call, Moment, context, audit_outcome, decide, allow_entry, deny_entry, approval_entry, run_checks,
  check, evaluate,
}
use toolboundary.Boundary.Check.Outcomes.{decision_of, reason_of, is_early, Ends, run_checks-Ends}
use toolboundary.Boundary.Policy.{Permits}
use toolboundary.Boundary.Policy.Decision.{run_checks_iff}

-- the event that `check` records for an outcome
outcome_event :
    {S : Type 0} (stamp : Stamp) (b : Settings) (c : Call) (r : Result (Unit {0}))
    (trail : AuditTrail) (s s' : S)
    → Ends s (r, s')
    → (e : AuditEvent) × ((audit_outcome stamp b c r trail).sinks ≡ map (emit e) trail.sinks)
      × (decision_of r ≡ some e.decision)
      × (e.reason_code ≡ reason_of r)
      × (e.agent_name ≡ b.agent_name)
      × (e.tool_name ≡ some c.tool_name)
      × (e.operation ≡ c.operation)
      × (e.correlation_id ≡ c.correlation_id)
unfolding audit_outcome record_event
outcome_event stamp b c (ok u) trail s s' ends =
    (event_of stamp (allow_entry b c), refl, refl, refl, refl, refl, refl, refl)
outcome_event stamp b c (raise (violation v)) trail s s' ends =
    (event_of stamp (deny_entry b c v), refl, refl, refl, refl, refl, refl, refl)
outcome_event stamp b c (raise (approval_required a)) trail s s' ends =
    (event_of stamp (approval_entry b c a), refl, refl, refl, refl, refl, refl, refl)
outcome_event stamp b c (raise (configuration_error x)) trail s s' ends = absurd ends
outcome_event stamp b c (raise (denied_by_provider x)) trail s s' ends = absurd ends
outcome_event stamp b c (raise (unavailable_provider x)) trail s s' ends = absurd ends
outcome_event stamp b c (raise (consumed x)) trail s s' ends = absurd ends

-- the decision that `evaluate` returns for an outcome
outcome_decision :
    {S : Type 0} (decision_id : String) (b : Settings) (c : Call) (r : Result (Unit {0})) (s s' : S)
    → Ends s (r, s')
    → (d : LocalDecision) × (decide decision_id b c r ≡ ok d)
      × (decision_of r ≡ some d.decision)
      × (d.reason_code ≡ reason_of r)
      × (d.tool_name ≡ c.tool_name)
      × (d.policy_version ≡ b.policy_version)
unfolding decide
outcome_decision i b c (ok u) s s' ends = (_, refl, refl, refl, refl, refl)
outcome_decision i b c (raise (violation v)) s s' ends = (_, refl, refl, refl, refl, refl)
outcome_decision i b c (raise (approval_required a)) s s' ends = (_, refl, refl, refl, refl, refl)
outcome_decision i b c (raise (configuration_error x)) s s' ends = absurd ends
outcome_decision i b c (raise (denied_by_provider x)) s s' ends = absurd ends
outcome_decision i b c (raise (unavailable_provider x)) s s' ends = absurd ends
outcome_decision i b c (raise (consumed x)) s s' ends = absurd ends

early_rule :
    (rule : Option ViolationReason)
    → rule ≢ some ViolationReason.rate_limit_exceeded
    → rule ≢ some ViolationReason.policy_hook_denied
    → rule ≢ some ViolationReason.approval_required
    → is_early rule ≡ true
early_rule rule not_rate not_hook not_approval = ground arith

Ends-at :
    {S : Type 0} (s : S) (v : Violation) (p : Result (Unit {0}) × S)
    → p.0 ≡ raise (violation v)
    → Ends s p
    → is_early v.rule ≡ true
    → p.1 ≡ s
Ends-at s v (ok u, s') h ends early = cc
Ends-at s v (raise (violation w), s') h ends early = ends (cc (h, early))
Ends-at s v (raise (approval_required w), s') h ends early = cc
Ends-at s v (raise (configuration_error x), s') h ends early = absurd ends
Ends-at s v (raise (denied_by_provider x), s') h ends early = absurd ends
Ends-at s v (raise (unavailable_provider x), s') h ends early = absurd ends
Ends-at s v (raise (consumed x), s') h ends early = absurd ends

module _ (F : FloatParsing) (L : RateLimiter) {P : Type 0} (m : Moment) (c : Call) where
  -- `check` returns without raising exactly when the policy permits the call (kill switch,
  -- quarantine, validity window, environment, blocked operations, tool permission, operation,
  -- access mode, amounts, hooks and approval all in order) and the rate limits let it pass.
  pub check_iff :
      (b : Boundary L.State P)
      → ((check F L m c b).0 ≡ ok tt) ↔ (
          Permits F m b.settings c
          × ((check_rate_limit L m.global_now m.tool_now b.settings
                (context b.settings c)
                b.rate_limiter).0
              ≡ ok tt))
  unfolding check
  check_iff b =
      let s = b.rate_limiter in
      let ctx = context b.settings c in
      let run = run_checks F L m b.settings ctx s in
      let rate = check_rate_limit L m.global_now m.tool_now b.settings ctx s in
      (
        λ h.
            let split =
              (run_checks_iff F L m b.settings c s run.1).0
                (ap (λ (r : Result (Unit {0})). (r, run.1)) h) in
            (split.0, ap (λ (p : Result (Unit {0}) × L.State). p.0) split.1),
        λ h.
            ap (λ (p : Result (Unit {0}) × L.State). p.0)
              ((run_checks_iff F L m b.settings c s rate.1).1
                (h.0, ap (λ (r : Result (Unit {0})). (r, rate.1)) h.1)),
      )

  -- an allowed call leaves the rate limiter as the rate check left it
  pub check_limiter :
      (b : Boundary L.State P)
      → (check F L m c b).0 ≡ ok tt
      → check_rate_limit L m.global_now m.tool_now b.settings (context b.settings c) b.rate_limiter
        ≡ (ok tt, (check F L m c b).1.rate_limiter)
  unfolding check
  check_limiter b h =
      let run = run_checks F L m b.settings (context b.settings c) b.rate_limiter in
      ((run_checks_iff F L m b.settings c b.rate_limiter run.1).0
        (ap (λ (r : Result (Unit {0})). (r, run.1)) h)).1

  -- Every call of `check` hands exactly one event to each sink of the trail, whatever the outcome:
  -- its decision is ALLOW, DENY or APPROVAL_REQUIRED as the call returned or raised, and it names
  -- the agent, the tool, the operation and the reason code of the outcome.
  pub check_audits :
      (b : Boundary L.State P)
      → let (outcome, b') = check F L m c b in
        (e : AuditEvent) × (b'.audit.sinks ≡ map (emit e) b.audit.sinks)
        × (decision_of outcome ≡ some e.decision)
        × (e.reason_code ≡ reason_of outcome)
        × (e.agent_name ≡ b.agent_name)
        × (e.tool_name ≡ some c.tool_name)
        × (e.operation ≡ c.operation)
        × (e.correlation_id ≡ c.correlation_id)
  unfolding check
  check_audits b =
      let run = run_checks F L m b.settings (context b.settings c) b.rate_limiter in
      outcome_event m.stamp b.settings c run.0 b.audit b.rate_limiter run.1
        (run_checks-Ends F L m b.settings (context b.settings c) b.rate_limiter)

  -- `evaluate` never raises. It returns the decision, and the reason code, with which `check`
  -- ends in the same state at the same readings, leaves the rate limiter as `check` leaves it,
  -- and records no audit event.
  pub evaluate_agrees :
      (b : Boundary L.State P)
      → let (outcome, b') = check F L m c b in
        (d : LocalDecision) × (evaluate F L m c b
          ≡ (ok d, record b { rate_limiter = b'.rate_limiter }))
        × (decision_of outcome ≡ some d.decision)
        × (d.reason_code ≡ reason_of outcome)
        × (d.tool_name ≡ c.tool_name)
        × (d.policy_version ≡ b.policy_version)
  unfolding check evaluate
  evaluate_agrees b =
      let run = run_checks F L m b.settings (context b.settings c) b.rate_limiter in
      let decided =
        outcome_decision m.decision_id b.settings c run.0 b.rate_limiter run.1
          (run_checks-Ends F L m b.settings (context b.settings c) b.rate_limiter) in
      (
        decided.0,
        ap
            (λ (r : Result LocalDecision).
              let q : Result LocalDecision × Boundary L.State P =
                (r, record b { rate_limiter = run.1 }) in
              q)
            decided.1,
        decided.2,
        decided.3,
        decided.4,
        decided.5,
      )

  -- A call that is denied with a BoundaryViolation whose rule is not RATE_LIMIT_EXCEEDED,
  -- POLICY_HOOK_DENIED or APPROVAL_REQUIRED spends nothing: the rate limiter is as it was before
  -- the call.
  pub early_denial_spends_nothing :
      (b : Boundary L.State P) (v : Violation)
      → (check F L m c b).0 ≡ raise (violation v)
      → v.rule ≢ some ViolationReason.rate_limit_exceeded
      → v.rule ≢ some ViolationReason.policy_hook_denied
      → v.rule ≢ some ViolationReason.approval_required
      → (check F L m c b).1.rate_limiter ≡ b.rate_limiter
  unfolding check
  early_denial_spends_nothing b v h not_rate not_hook not_approval =
      Ends-at b.rate_limiter v (run_checks F L m b.settings (context b.settings c) b.rate_limiter) h
        (run_checks-Ends F L m b.settings (context b.settings c) b.rate_limiter)
        (early_rule v.rule not_rate not_hook not_approval)
