-- ===== src/Decorators/Guarantees.antt =====
-- When the function that `guarded_tool` wraps runs, and what is recorded of it.
use toolboundary.Common.{◌≡◌, ◌⊎◌, none, some, map}
use toolboundary.Common.Dict.{Dict}
use toolboundary.Audit.{AuditEvent, emit}
use toolboundary.Exceptions.{Message, Error, Result, ok}
use toolboundary.Numeric.{FloatParsing}
use toolboundary.Evidence.{Hashing}
use toolboundary.Provider.{AuthorizationContext, EvidenceProvider}
use toolboundary.RateLimiter.Interface.{RateLimiter}
use toolboundary.Boundary.{Boundary}
use toolboundary.Boundary.Check.{check}
use toolboundary.Boundary.Policy.{Permits}
use toolboundary.Boundary.Authorize.{authorize_call}
use toolboundary.Guarding.{Argument, Ending, blocked, ended, GuardMoment}
use toolboundary.Guarding.Guarantees.{
  status_of, guarded_run-permitted, guarded_run-checked, guarded_run-authorized,
}
use toolboundary.Decorators.{Guard, guarded_call, guarded_authorize_call, wrapper}

module _ (H : Hashing) (F : FloatParsing) (L : RateLimiter) (P : EvidenceProvider) {W : Type 0}
    (g : Guard) (m : GuardMoment) (func : W → Ending × W) (kwargs : Dict Argument) (w : W)
    (b : Boundary L.State P.State) where
  abbrev authorized : Result AuthorizationContext × Boundary L.State P.State
  authorized = authorize_call H F L P (guarded_authorize_call g kwargs) m.authorize b

  abbrev checked : Result (Unit {0}) × Boundary L.State P.State
  checked = check F L m.authorize.moment (guarded_call g kwargs) b

  -- A guarded call either raises the library's exception before the function runs, and the world
  -- is as it was; or the boundary's policy permits the call, the function runs once, and the
  -- wrapper ends as the function ends, with its value or its exception.
  pub runs_only_if_permitted :
      let (outcome, w', b') = wrapper H F L P g m func kwargs w b in
      ((e : Error) × (outcome ≡ blocked e) × (w' ≡ w))
      ⊎ (Permits F m.authorize.moment b.settings (guarded_call g kwargs)
          × (outcome ≡ ended (func w).0)
          × (w' ≡ (func w).1))
  unfolding wrapper guarded_authorize_call
  runs_only_if_permitted =
      guarded_run-permitted H F L P (guarded_authorize_call g kwargs)
        (guarded_call g kwargs).correlation_id m func w b

  -- Without a provider the function runs whenever `check` allows the call; with one, whenever
  -- `authorize_call` gives an authorization; the wrapper ends as the function does, and with a
  -- provider one event of the execution, with the function's status, follows in each sink what
  -- `authorize_call` recorded.
  pub runs_when_allowed :
      let (outcome, w', b') = wrapper H F L P g m func kwargs w b in
      (b.provider ≡ none → checked.0 ≡ ok tt → (outcome ≡ ended (func w).0) × (w' ≡ (func w).1))
      × ((p : P.State) (a : AuthorizationContext)
          → b.provider ≡ some p
          → authorized.0 ≡ ok a
          → (outcome ≡ ended (func w).0)
            × (w' ≡ (func w).1)
            × ((e : AuditEvent) × (b'.audit.sinks ≡ map (emit e) authorized.1.audit.sinks)
                × (e.message ≡ Message.execution_recorded (status_of (func w).0))
                × (e.tool_name ≡ some a.frozen_call.tool_name)))
  unfolding wrapper guarded_authorize_call
  runs_when_allowed =
      let q = guarded_authorize_call g kwargs in
      let id = (guarded_call g kwargs).correlation_id in
      (guarded_run-checked H F L P q id m func w b, guarded_run-authorized H F L P q id m func w b)
