-- ===== src/Guarding/Guarantees.antt =====
-- When a wrapped function runs, and what is recorded of it.
use toolboundary.Common.{
  ◌≡◌, ◌⊎◌, refl, sym, inl, inr, ap, ◌∙◌, String, false, Option, none, some, map, Option-cases,
}
use toolboundary.Audit.{AuditEvent, emit}
use toolboundary.Exceptions.{Message, Error, Result, ok, raise}
use toolboundary.Numeric.{FloatParsing}
use toolboundary.Evidence.{Hashing, build_execution_record}
use toolboundary.Provider.{AuthorizationContext, ProviderReceipt, EvidenceProvider}
use toolboundary.RateLimiter.Interface.{RateLimiter}
use toolboundary.Boundary.{Boundary}
use toolboundary.Boundary.Check.{check}
use toolboundary.Boundary.Policy.{Permits}
use toolboundary.Boundary.Guarantees.{check_iff}
use toolboundary.Boundary.Authorize.{AuthorizeCall, authorize_call}
use toolboundary.Boundary.Authorize.Guarantees.{authorized_is_bound}
use toolboundary.Boundary.Execution.{record_execution, execution_of, status_text}
use toolboundary.Boundary.Execution.Guarantees.{recorded_once}
use toolboundary.Guarding.{
  Ending, returned, failed, Outcome, blocked, ended, GuardMoment, dispatch_of, run_recorded,
  guarded_run,
}

pub Result-cases {ℓ} :
    {A : Type ℓ} (r : Result A) → ((a : A) × (r ≡ ok a)) ⊎ ((e : Error) × (r ≡ raise e))
Result-cases (ok a) = inl (a, refl)
Result-cases (raise e) = inr (e, refl)

-- the text that the event of an execution carries for an ending
abbrev pub status_of : Ending → String
status_of (returned v) = "success"
status_of (failed exc) = "error"

module _ (H : Hashing) (F : FloatParsing) (L : RateLimiter) (P : EvidenceProvider) {W : Type 0}
    (q : AuthorizeCall) (call_id : Option String) (m : GuardMoment) (func : W → Ending × W) where
  dispatched-status :
      (correlation_id : Option String) (a : AuthorizationContext) (ending : Ending)
      → status_text (execution_of H (dispatch_of m correlation_id ending) a).status
        ≡ status_of ending
  unfolding dispatch_of build_execution_record
  dispatched-status correlation_id a (returned v) = refl
  dispatched-status correlation_id a (failed exc) = refl

  module _ (correlation_id : Option String) (a : AuthorizationContext) (w : W)
      (b : Boundary L.State P.State) where
    abbrev pub recorded :
        Result (Option ProviderReceipt) × AuthorizationContext × Boundary L.State P.State
    recorded = record_execution H P (dispatch_of m correlation_id (func w).0) a b

    -- with an authorization that is not consumed, the wrapper ends as the function does
    run_recorded-fresh :
        a.consumed ≡ false → (run_recorded H F L P m correlation_id func a w b).0 ≡ ended (func w).0
    unfolding run_recorded
    run_recorded-fresh fresh =
        let once = recorded_once H P (dispatch_of m correlation_id (func w).0) a b fresh in
        rw (once.0.1, run_recorded)

    run_recorded-world : (run_recorded H F L P m correlation_id func a w b).1 ≡ (func w).1
    unfolding run_recorded
    run_recorded-world = refl

    -- and it hands the event of the execution to each sink
    run_recorded-event :
        a.consumed ≡ false
        → (e : AuditEvent) × ((run_recorded H F L P m correlation_id func a w b).2.audit.sinks
            ≡ map (emit e) b.audit.sinks)
          × (e.message ≡ Message.execution_recorded (status_of (func w).0))
          × (e.tool_name ≡ some a.frozen_call.tool_name)
    unfolding run_recorded
    run_recorded-event fresh =
        let once = recorded_once H P (dispatch_of m correlation_id (func w).0) a b fresh in
        (
          once.1.0,
          once.1.1,
          once.1.2 ∙ ap Message.execution_recorded (dispatched-status correlation_id a (func w).0),
          once.1.3,
        )

  module _ (w : W) (b : Boundary L.State P.State) where
    -- the library raised before the function ran, or the policy permits the call, the function ran
    -- and the wrapper ends as it does
    abbrev pub Guarded : Outcome × W × Boundary L.State P.State → Type 0
    Guarded r =
        ((e : Error) × (r.0 ≡ blocked e) × (r.1 ≡ w))
        ⊎ (Permits F m.authorize.moment b.settings q.call
            × (r.0 ≡ ended (func w).0)
            × (r.1 ≡ (func w).1))

    abbrev after_authorize :
        Result AuthorizationContext × Boundary L.State P.State
        → Outcome × W × Boundary L.State P.State
    after_authorize r = elim r.0 [
      | raise e ↦ (blocked e, w, r.1)
      | ok a ↦ run_recorded H F L P m call_id func a w r.1
    ]

    abbrev after_check :
        Result (Unit {0}) × Boundary L.State P.State → Outcome × W × Boundary L.State P.State
    after_check r = elim r.0 [
      | raise e ↦ (blocked e, w, r.1)
      | ok u ↦ (ended (func w).0, (func w).1, r.1)
    ]

    abbrev pub authorized : Result AuthorizationContext × Boundary L.State P.State
    authorized = authorize_call H F L P q m.authorize b

    abbrev pub checked : Result (Unit {0}) × Boundary L.State P.State
    checked = check F L m.authorize.moment q.call b

    permitted : checked.0 ≡ ok tt → Permits F m.authorize.moment b.settings q.call
    permitted h = ((check_iff F L m.authorize.moment q.call b).0 h).0

    authorized-allowed :
        (a : AuthorizationContext)
        → authorized.0 ≡ ok a
        → (checked.0 ≡ ok tt) × (a.consumed ≡ false)
    authorized-allowed a h =
        let was = authorized_is_bound H F L P q m.authorize b a h in (was.0, was.3)

    check-Guarded :
        (r : Result (Unit {0}) × Boundary L.State P.State) → r ≡ checked → Guarded (after_check r)
    check-Guarded (raise e, b') h = inl (e, refl, refl)
    check-Guarded (ok u, b') h = inr (permitted (ap (λ q. q.0) (sym h)), refl, refl)

    authorize-Guarded :
        (r : Result AuthorizationContext × Boundary L.State P.State)
        → r ≡ authorized
        → Guarded (after_authorize r)
    authorize-Guarded (raise e, b') h = inl (e, refl, refl)
    authorize-Guarded (ok a, b') h =
        let was = authorized-allowed a (ap (λ q. q.0) (sym h)) in
        inr (
          permitted was.0,
          run_recorded-fresh call_id a w b' was.1,
          run_recorded-world call_id a w b',
        )

    after_check-ok :
        (r : Result (Unit {0}) × Boundary L.State P.State)
        → r.0 ≡ ok tt
        → ((after_check r).0 ≡ ended (func w).0) × ((after_check r).1 ≡ (func w).1)
    after_check-ok r h = (rw h, rw h)

    after_authorize-ok :
        (r : Result AuthorizationContext × Boundary L.State P.State) (a : AuthorizationContext)
        → a.consumed ≡ false
        → r.0 ≡ ok a
        → ((after_authorize r).0 ≡ ended (func w).0)
          × ((after_authorize r).1 ≡ (func w).1)
          × ((e : AuditEvent) × ((after_authorize r).2.audit.sinks ≡ map (emit e) r.1.audit.sinks)
              × (e.message ≡ Message.execution_recorded (status_of (func w).0))
              × (e.tool_name ≡ some a.frozen_call.tool_name))
    after_authorize-ok r a fresh h = rw h (
      run_recorded-fresh call_id a w r.1 fresh,
      run_recorded-world call_id a w r.1,
      run_recorded-event call_id a w r.1 fresh,
    )

    -- the run, for a provider that is there or not
    abbrev by_provider : Option P.State → Outcome × W × Boundary L.State P.State
    by_provider (some p) = after_authorize authorized
    by_provider none = after_check checked

    guarded_run-by_provider : guarded_run H F L P q call_id m func w b ≡ by_provider b.provider
    unfolding guarded_run
    guarded_run-by_provider = refl

    guarded_run-none :
        b.provider ≡ none → guarded_run H F L P q call_id m func w b ≡ after_check checked
    guarded_run-none h = guarded_run-by_provider ∙ ap by_provider h

    guarded_run-some :
        (p : P.State)
        → b.provider ≡ some p
        → guarded_run H F L P q call_id m func w b ≡ after_authorize authorized
    guarded_run-some p h = guarded_run-by_provider ∙ ap by_provider h

    -- either the library raised before the function ran, or the policy permits the call
    pub guarded_run-permitted : Guarded (guarded_run H F L P q call_id m func w b)
    guarded_run-permitted = elim (Option-cases b.provider) [
      | inl absent ↦ rw (guarded_run-none absent) (check-Guarded checked refl)
      | inr (p, present) ↦ rw (guarded_run-some p present) (authorize-Guarded authorized refl)
    ]

    pub guarded_run-checked :
        b.provider ≡ none
        → checked.0 ≡ ok tt
        → ((guarded_run H F L P q call_id m func w b).0 ≡ ended (func w).0)
          × ((guarded_run H F L P q call_id m func w b).1 ≡ (func w).1)
    guarded_run-checked absent h = rw (guarded_run-none absent) (after_check-ok checked h)

    pub guarded_run-authorized :
        (p : P.State) (a : AuthorizationContext)
        → b.provider ≡ some p
        → authorized.0 ≡ ok a
        → ((guarded_run H F L P q call_id m func w b).0 ≡ ended (func w).0)
          × ((guarded_run H F L P q call_id m func w b).1 ≡ (func w).1)
          × ((e : AuditEvent) × ((guarded_run H F L P q call_id m func w b).2.audit.sinks
                ≡ map (emit e) authorized.1.audit.sinks)
              × (e.message ≡ Message.execution_recorded (status_of (func w).0))
              × (e.tool_name ≡ some a.frozen_call.tool_name))
    guarded_run-authorized p a present h =
        rw (guarded_run-some p present)
          (after_authorize-ok authorized a (authorized-allowed a h).1 h)
