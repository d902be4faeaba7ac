-- ===== src/Boundary/Authorize/Guarantees.antt =====
-- What `authorize_call` guarantees of the local policy and of the external provider.
use toolboundary.Common.{
  ◌≡◌, ◌≢◌, ◌⊎◌, inl, inr, refl, sym, true, false, Option, none, some, map, arith, ap, subst, ◌∙◌,
}
use toolboundary.Audit.{AuditEvent, emit}
use toolboundary.Enums.{DecisionType}
use toolboundary.Exceptions.{Error, Result, ok, raise}
use toolboundary.Evidence.{Hashing}
use toolboundary.Numeric.{FloatParsing}
use toolboundary.Provider.{
  ProviderMode, observe, enforce, LocalDecision, ProviderGrant, AuthorizationContext, Attempt,
  returns, EvidenceProvider,
}
use toolboundary.RateLimiter.Interface.{RateLimiter}
use toolboundary.Boundary.{Boundary}
use toolboundary.Boundary.Check.{context, allow_decision, check}
use toolboundary.Boundary.Check.Outcomes.{decision_of, reason_of}
use toolboundary.Boundary.Limits.{check_rate_limit}
use toolboundary.Boundary.Policy.{Permits}
use toolboundary.Boundary.Guarantees.{check_iff, check_audits}
use toolboundary.Boundary.Authorize.Binding.{Bound, authorization-Bound}
use toolboundary.Boundary.Authorize.{AuthorizeCall, AuthorizeMoment, authorize_call}
use toolboundary.Boundary.Authorize.Answers.{
  Accepted, RefusedBy, Refuses, answer_cases, consult, consult-observe, consult-ok, consult-refused,
  resume-allowed, resume-ok, resume-raise, shown_call,
}

Result-cases : (r : Result (Unit {0})) → (r ≡ ok tt) ⊎ ((e : Error) × (r ≡ raise e))
Result-cases (ok tt) = inl refl
Result-cases (raise e) = inr (e, refl)

raised-not_allow :
    (e : Error) (d : DecisionType)
    → decision_of {A = Unit {0}} (raise e) ≡ some d
    → d ≢ DecisionType.allow
raised-not_allow e d h = λ same. ground arith

-- what an exception says of the decision does not depend on what the call would have returned
raised_alike :
    (e : Error)
    → decision_of {A = AuthorizationContext} (raise e) ≡ decision_of {A = Unit {0}} (raise e)
raised_alike e = ground arith

raised_reason :
    (e : Error)
    → reason_of {A = Unit {0}} (raise e) ≡ reason_of {A = AuthorizationContext} (raise e)
raised_reason e = ground arith

module _ (H : Hashing) (F : FloatParsing) (L : RateLimiter) (P : EvidenceProvider)
    (a : AuthorizeCall) (m : AuthorizeMoment) (b : Boundary L.State P.State) where
  -- the local decision that the provider is shown
  abbrev pub shown_decision : LocalDecision
  shown_decision = allow_decision m.moment.decision_id b.settings a.call

  -- the provider's answer, if it is asked in the state `p`
  abbrev pub answer_at : P.State → Attempt (Option ProviderGrant)
  answer_at p = (P.authorize (shown_call H b.settings a) shown_decision p).0

  abbrev RatePasses : Type 0
  RatePasses =
      (check_rate_limit L m.moment.global_now m.moment.tool_now b.settings
        (context b.settings a.call) b.rate_limiter).0
      ≡ ok tt

  -- A call that the policy does not permit, or that the rate limits do not let pass, raises, and
  -- the provider is left as it was, whatever it would answer. Each sink takes one event of it,
  -- which has the decision and the reason code of the exception, and the decision is not ALLOW.
  pub forbidden_is_unasked :
      ¬ (Permits F m.moment b.settings a.call × RatePasses)
      → (e : Error) × (event : AuditEvent) × ((authorize_call H F L P a m b).0 ≡ raise e)
        × ((authorize_call H F L P a m b).1.provider ≡ b.provider)
        × ((authorize_call H F L P a m b).1.audit.sinks ≡ map (emit event) b.audit.sinks)
        × (decision_of {A = AuthorizationContext} (raise e) ≡ some event.decision)
        × (event.decision ≢ DecisionType.allow)
        × (event.reason_code ≡ reason_of {A = AuthorizationContext} (raise e))
  unfolding authorize_call
  forbidden_is_unasked forbidden =
      let after = check F L m.moment a.call b in
      let audited = check_audits F L m.moment a.call b in
      elim (Result-cases after.0) [
        | inl allowed ↦ absurd (forbidden ((check_iff F L m.moment a.call b).0 allowed))
        | inr (e, h) ↦
            let whole = resume-raise H F L P a m after.0 after.1 e h in
            let decided = ap (λ (r : Result (Unit {0})). decision_of r) (sym h) ∙ audited.2 in
            (
              e,
              audited.0,
              ap (λ (q : Result AuthorizationContext × Boundary L.State P.State). q.0) whole,
              ap (λ (q : Result AuthorizationContext × Boundary L.State P.State). q.1.provider)
                    whole
                  ∙ (unfold check in refl),
              ap (λ (q : Result AuthorizationContext × Boundary L.State P.State). q.1.audit.sinks)
                    whole
                  ∙ audited.1,
              raised_alike e ∙ decided,
              raised-not_allow e audited.0.decision decided,
              audited.3 ∙ ap (λ (r : Result (Unit {0})). reason_of r) h ∙ raised_reason e,
            )
      ]

  pub authorized_is_bound :
      (x : AuthorizationContext)
      → (authorize_call H F L P a m b).0 ≡ ok x
      → ((check F L m.moment a.call b).0 ≡ ok tt)
        × (Permits F m.moment b.settings a.call × RatePasses)
        × Bound H b.settings a x
        × (x.consumed ≡ false)
        × (x.frozen_call ≡ shown_call H b.settings a)
        × (x.local_decision ≡ shown_decision)
  unfolding authorize_call check
  authorized_is_bound x h =
      let after = check F L m.moment a.call b in
      let passed = resume-ok H F L P a m after.0 after.1 x h in
      let given = consult-ok H F L P a m after.1 b.provider x passed.1 in
      (
        passed.0,
        (check_iff F L m.moment a.call b).0 passed.0,
        subst (λ y. Bound H b.settings a y) (sym given.1)
            (authorization-Bound H b.settings a m given.0),
        ap (λ (y : AuthorizationContext). y.consumed) given.1,
        ap (λ (y : AuthorizationContext). y.frozen_call) given.1,
        ap (λ (y : AuthorizationContext). y.local_decision) given.1,
      )

  -- In enforce mode, with a provider, an authorization is only given if the provider, asked about
  -- the frozen call with its digest, returned a grant that allows it and that the authorization
  -- carries, or returned None and the authorization carries no grant: not if it raised or denied.
  pub enforce_needs_answer :
      (p : P.State) (x : AuthorizationContext)
      → b.provider ≡ some p
      → b.provider_mode ≡ enforce
      → (authorize_call H F L P a m b).0 ≡ ok x
      → ((g : ProviderGrant) × (answer_at p ≡ returns (some g))
          × (g.allowed ≡ true)
          × (x.provider_grant ≡ some g))
        ⊎ ((answer_at p ≡ returns none) × (x.provider_grant ≡ none))
  unfolding authorize_call check
  enforce_needs_answer p x e mode h =
      let after = check F L m.moment a.call b in
      let passed = resume-ok H F L P a m after.0 after.1 x h in
      let given = consult-ok H F L P a m after.1 b.provider x passed.1 in
      let carried = ap (λ (y : AuthorizationContext). y.provider_grant) given.1 in
      answer_cases (answer_at p) given.0
        (subst (λ (mode' : ProviderMode). Accepted mode' (answer_at p) given.0) mode (given.2 p e))
        x.provider_grant carried

  -- In observe mode the provider never blocks: every call that `check` allows is authorized,
  -- whether the provider allows it, denies it, gives None or raises.
  pub observe_never_blocks :
      b.provider_mode ≡ observe
      → (check F L m.moment a.call b).0 ≡ ok tt
      → (x : AuthorizationContext) × ((authorize_call H F L P a m b).0 ≡ ok x)
  unfolding authorize_call check
  observe_never_blocks mode h =
      let after = check F L m.moment a.call b in
      let given = consult-observe H F L P a m after.1 b.provider mode in
      (
        given.0,
        ap (λ (q : Result AuthorizationContext × Boundary L.State P.State). q.0)
              (resume-allowed H F L P a m after.0 after.1 h)
            ∙ given.1,
      )

  -- In enforce mode, where `check` allows the call and the provider raises or returns a grant that
  -- does not allow, `authorize_call` raises ProviderUnavailable or ProviderAuthorizationDenied,
  -- with the provider and the reason of the grant; the audit trail then holds what `check`
  -- recorded, the event of an allowed call, and no event of the refusal.
  pub enforce_blocks :
      (p : P.State)
      → b.provider ≡ some p
      → b.provider_mode ≡ enforce
      → (check F L m.moment a.call b).0 ≡ ok tt
      → Refuses (answer_at p)
      → (e : Error) × ((authorize_call H F L P a m b).0 ≡ raise e)
        × RefusedBy (answer_at p) e
        × ((authorize_call H F L P a m b).1.audit ≡ (check F L m.moment a.call b).1.audit)
  unfolding authorize_call check
  enforce_blocks p present mode allowed refused =
      let after = check F L m.moment a.call b in
      let blocked = consult-refused H F L P a m after.1 p mode refused in
      let whole =
        resume-allowed H F L P a m after.0 after.1 allowed
        ∙ ap (λ (o : Option P.State). consult H F L P a m after.1 o) present
        ∙ blocked.1 in
      (
        blocked.0,
        ap (λ (q : Result AuthorizationContext × Boundary L.State P.State). q.0) whole,
        blocked.2,
        ap (λ (q : Result AuthorizationContext × Boundary L.State P.State). q.1.audit) whole,
      )
