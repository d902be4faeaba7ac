-- ===== src/Boundary/Reach/Invariant.antt =====
-- What holds of every state that a boundary can reach.
use toolboundary.Common.{
  ℕ, ◌≡◌, refl, sym, subst, Bool, if◌then◌else◌, Option, true, false, none, some, List,
}
use toolboundary.Audit.{Sink, record_event}
use toolboundary.Exceptions.{Result, ok, raise}
use toolboundary.Numeric.{FloatParsing}
use toolboundary.Evidence.{Hashing, freeze_with_digest}
use toolboundary.Provider.{
  ProviderMode, observe, enforce, FrozenToolCall, ProviderGrant, ProviderReceipt, ExecutionRecord,
  AuthorizationContext, returns, raises, EvidenceProvider,
}
use toolboundary.RateLimiter.Interface.{RateLimiter, SlidingWindowLaws}
use toolboundary.Boundary.{Boundary, engage_kill_switch, disengage_kill_switch, add_permission}
use toolboundary.Boundary.Limits.{hour}
use toolboundary.Boundary.Check.{Call, Moment, allow_decision, context, check, evaluate}
use toolboundary.Boundary.Guarantees.{check_audits}
use toolboundary.Boundary.Authorize.{
  AuthorizeCall, AuthorizeMoment, frozen_call, authorization, weigh, conclude, authorize_allowed,
  authorize_call,
}
use toolboundary.Boundary.Execution.{
  Dispatch, receipt_of, execution_of, execution_entry, report, record_execution,
}
use toolboundary.Boundary.Reach.{
  InTurn, Step, checked, evaluated, authorized, executed, engaged, disengaged, permitted, Reach,
  here, next, Grown,
}
use toolboundary.Boundary.Reach.Steps.{Grown-refl, Grown-trans, emit-Grown, run-Valid}

-- the settings and the limiter are left alone, and the sinks lose nothing
pub record Kept {S P : Type 0} (b b' : Boundary S P) : Type 0 where
  pub settings : b'.settings ≡ b.settings
  limiter : b'.rate_limiter ≡ b.rate_limiter
  grown : Grown b.audit.sinks b'.audit.sinks

Kept-refl : {S P : Type 0} (b : Boundary S P) → Kept b b
Kept-refl b = record { settings = refl; limiter = refl; grown = Grown-refl b.audit.sinks }

either-Kept :
    {A S P : Type 0} (b : Boundary S P) (t : Bool) (x y : A × Boundary S P)
    → Kept b x.1
    → Kept b y.1
    → Kept b (if t then x else y).1
either-Kept b true x y kept kept' = kept
either-Kept b false x y kept kept' = kept'

either_state-Kept :
    {A C S P : Type 0} (b : Boundary S P) (t : Bool) (x y : A × C × Boundary S P)
    → Kept b x.2
    → Kept b y.2
    → Kept b (if t then x else y).2
either_state-Kept b true x y kept kept' = kept
either_state-Kept b false x y kept kept' = kept'

module _ {S P : Type 0} (a : AuthorizeCall) (m : AuthorizeMoment) (frozen : FrozenToolCall)
    (b : Boundary S P) where
  conclude-Kept : (g : _) → Kept b (conclude a m frozen g b).1
  unfolding conclude record_event
  conclude-Kept g = record { settings = refl; limiter = refl; grown = emit-Grown _ b.audit.sinks }

  weigh-Kept : (mode : ProviderMode) (answer : _) → Kept b (weigh a m frozen mode answer b).1
  unfolding weigh
  weigh-Kept enforce (raises exc) = Kept-refl b
  weigh-Kept observe (raises exc) = conclude-Kept _
  weigh-Kept observe (returns none) = conclude-Kept none
  weigh-Kept enforce (returns none) = conclude-Kept none
  weigh-Kept observe (returns (some g)) = conclude-Kept (some g)
  weigh-Kept enforce (returns (some g)) =
      either-Kept b g.allowed _ _ (conclude-Kept (some g)) (Kept-refl b)

module _ (H : Hashing) (F : FloatParsing) (L : RateLimiter) (P : EvidenceProvider) where
  check-Kept :
      (m : Moment) (c : Call) (b : Boundary L.State P.State)
      → Grown b.audit.sinks (check F L m c b).1.audit.sinks
  check-Kept m c b =
      let audited = check_audits F L m c b in
      subst (λ sinks. Grown b.audit.sinks sinks) (sym audited.1)
        (emit-Grown audited.0 b.audit.sinks)

  -- `authorize_allowed`, for a provider that is there or not
  abbrev by_provider :
      AuthorizeCall
      → AuthorizeMoment
      → Boundary L.State P.State
      → Option P.State
      → Result AuthorizationContext × Boundary L.State P.State
  by_provider a m b o =
      let frozen = freeze_with_digest H (frozen_call b.settings a) in
      elim o [
        | none ↦ (ok (authorization a m frozen b.settings none), b)
        | some p ↦
            let (attempt, p') =
              P.authorize frozen (allow_decision m.moment.decision_id b.settings a.call) p in
            weigh a m frozen b.provider_mode attempt (record b { provider = some p' })
      ]

  by_provider-Kept :
      (a : AuthorizeCall) (m : AuthorizeMoment) (b : Boundary L.State P.State) (o : Option P.State)
      → Kept b (by_provider a m b o).1
  by_provider-Kept a m b none = Kept-refl b
  by_provider-Kept a m b (some p) =
      let frozen = freeze_with_digest H (frozen_call b.settings a) in
      let asked = P.authorize frozen (allow_decision m.moment.decision_id b.settings a.call) p in
      let kept =
        weigh-Kept a m frozen (record b { provider = some asked.1 }) b.provider_mode asked.0 in
      record { settings = kept.settings; limiter = kept.limiter; grown = kept.grown }

  authorize_allowed-Kept :
      (a : AuthorizeCall) (m : AuthorizeMoment) (b : Boundary L.State P.State)
      → Kept b (authorize_allowed H F L P a m b).1
  unfolding authorize_allowed
  authorize_allowed-Kept a m b = by_provider-Kept a m b b.provider

  -- behind the check, the answer of the provider changes neither the limiter nor what was recorded
  abbrev behind :
      AuthorizeCall
      → AuthorizeMoment
      → Result (Unit {0}) × Boundary L.State P.State
      → Result AuthorizationContext × Boundary L.State P.State
  behind a m r = elim r.0 [ raise e ↦ (raise e, r.1) | ok u ↦ authorize_allowed H F L P a m r.1 ]

  behind-Kept :
      (a : AuthorizeCall) (m : AuthorizeMoment) (r : Result (Unit {0}) × Boundary L.State P.State)
      → Kept r.1 (behind a m r).1
  behind-Kept a m (raise e, b) = Kept-refl b
  behind-Kept a m (ok u, b) = authorize_allowed-Kept a m b

  pub authorize_call-Kept :
      (a : AuthorizeCall) (m : AuthorizeMoment) (b : Boundary L.State P.State)
      → Kept (check F L m.moment a.call b).1 (authorize_call H F L P a m b).1
  unfolding authorize_call
  authorize_call-Kept a m b = behind-Kept a m (check F L m.moment a.call b)

  report-Kept :
      (g : Option ProviderGrant) (e : ExecutionRecord) (b : Boundary L.State P.State)
      → Kept b (report P g e b).1
  unfolding report
  report-Kept none e b = Kept-refl b
  report-Kept (some g) e b = reported b.provider
    where
      reported :
          (o : Option P.State)
          → Kept b
              (elim o as (λ _. Option ProviderReceipt × Boundary L.State P.State) [
                | none ↦ (none, b)
                | some p ↦
                    let (attempt, p') = P.record_execution g e p in
                    (some (receipt_of g attempt), record b { provider = some p' })
              ]).1
      reported none = Kept-refl b
      reported (some p) = record {
        settings = refl;
        limiter = refl;
        grown = Grown-refl b.audit.sinks;
      }

  pub record_execution-Kept :
      (d : Dispatch) (a : AuthorizationContext) (b : Boundary L.State P.State)
      → Kept b (record_execution H P d a b).2
  unfolding record_execution record_event
  record_execution-Kept d a b =
      let e = execution_of H d a in
      let event = record_event d.stamp (execution_entry b.settings d a e) b.audit in
      let told = report-Kept a.provider_grant e (record b { audit = event.1 }) in
      either_state-Kept b a.consumed _ _ (Kept-refl b) (record {
        settings = told.settings;
        limiter = told.limiter;
        grown = Grown-trans b.audit.sinks _ _ (emit-Grown event.0 b.audit.sinks) told.grown;
      })

  module _ (v : ℕ) (laws : SlidingWindowLaws L hour v) where
    -- the limiter is consistent at its latest reading, and the sinks of `b` have lost nothing
    abbrev Holds : List Sink → ℕ → Boundary L.State P.State → Type 0
    Holds sinks now b = laws.Valid b.rate_limiter now × Grown sinks b.audit.sinks

    checked-Holds :
        (sinks : List Sink) (now : ℕ) (m : Moment) (c : Call) (b : Boundary L.State P.State)
        → InTurn now m
        → Holds sinks now b
        → Holds sinks m.tool_now (check F L m c b).1
    checked-Holds sinks now m c b turn (valid, grown) = (
      unfold check in
          run-Valid F L v laws b.settings (context b.settings c) m now b.rate_limiter turn valid,
      Grown-trans sinks b.audit.sinks _ grown (check-Kept m c b),
    )

    step-Holds :
        (sinks : List Sink) (now now' : ℕ) (b b' : Boundary L.State P.State)
        → Step H F L P now b now' b'
        → Holds sinks now b
        → Holds sinks now' b'
    step-Holds sinks _ _ _ _ (checked now m c b turn) h = checked-Holds sinks now m c b turn h
    step-Holds sinks _ _ _ _ (evaluated now m c b turn) h = (
      unfold evaluate in
          run-Valid F L v laws b.settings (context b.settings c) m now b.rate_limiter turn h.0,
      unfold evaluate in h.1,
    )
    step-Holds sinks _ _ _ _ (authorized now a m b turn) h =
        let passed = checked-Holds sinks now m.moment a.call b turn h in
        let kept = authorize_call-Kept a m b in
        (rw kept.limiter passed.0, Grown-trans sinks _ _ passed.1 kept.grown)
    step-Holds sinks _ _ _ _ (executed now d a b) h =
        let kept = record_execution-Kept d a b in
        (rw kept.limiter h.0, Grown-trans sinks b.audit.sinks _ h.1 kept.grown)
    step-Holds sinks _ _ _ _ (engaged now b) h = unfold engage_kill_switch in h
    step-Holds sinks _ _ _ _ (disengaged now b) h = unfold disengage_kill_switch in h
    step-Holds sinks _ _ _ _ (permitted now p b) h = unfold add_permission in h

    -- Whatever calls of check, evaluate, authorize_call, record_execution, the kill switch and
    -- add_permission a boundary has had, in any order, with a limiter that keeps the sliding-window
    -- contract and whose clock does not run backwards, and with any provider and any sinks: the
    -- limiter is consistent at its latest reading if it was at first, and the trail has its sinks
    -- in their order, each with all events that it had taken, before those that it has taken since.
    pub reachable_keeps :
        (now now' : ℕ) (b b' : Boundary L.State P.State)
        → Reach H F L P now b now' b'
        → laws.Valid b.rate_limiter now
        → laws.Valid b'.rate_limiter now' × Grown b.audit.sinks b'.audit.sinks
    reachable_keeps now now' b b' reach valid =
        reach-Holds b.audit.sinks now now' b b' reach (valid, Grown-refl b.audit.sinks)
      where
        reach-Holds :
            (sinks : List Sink) (now now' : ℕ) (b b' : Boundary L.State P.State)
            → Reach H F L P now b now' b'
            → Holds sinks now b
            → Holds sinks now' b'
        reach-Holds sinks _ _ _ _ (here now b) h = h
        reach-Holds sinks _ _ _ _ (next now b now' b' now'' b'' step rest) h =
            reach-Holds sinks now' now'' b' b'' rest (step-Holds sinks now now' b b' step h)
