-- ===== src/Boundary/Authorize/Answers.antt =====
-- `authorize_call`, by what the provider answers.
use toolboundary.Common.{
  ◌≡◌, ◌⊎◌, refl, inl, inr, Bool-cases, true, false, Option, none, some, arith, subst, ◌∙◌,
}
use toolboundary.Exceptions.{
  Message, Error, denied_by_provider, unavailable_provider, Result, ok, raise,
}
use toolboundary.Evidence.{Hashing, freeze_with_digest}
use toolboundary.Numeric.{FloatParsing}
use toolboundary.Provider.{
  ProviderMode, observe, enforce, ProviderGrant, AuthorizationContext, Attempt, returns, raises,
  EvidenceProvider, FrozenToolCall,
}
use toolboundary.RateLimiter.Interface.{RateLimiter}
use toolboundary.Boundary.{Settings, Boundary}
use toolboundary.Boundary.Check.{allow_decision}
use toolboundary.Boundary.Authorize.{
  AuthorizeCall, AuthorizeMoment, frozen_call, failure, authorization, weigh, degraded_grant,
  authorize_allowed,
}

-- what an authorization says of the provider's answer in enforce mode
abbrev pub Enforced : Attempt (Option ProviderGrant) → Option ProviderGrant → Type 0
Enforced (raises exc) grant = ⊥
Enforced (returns none) grant = grant ≡ none
Enforced (returns (some g)) grant = (g.allowed ≡ true) × (grant ≡ some g)

pub answer_cases :
    (attempt : Attempt (Option ProviderGrant)) (grant : Option ProviderGrant)
    → Enforced attempt grant
    → (carried : Option ProviderGrant) → carried ≡ grant
    → ((g : ProviderGrant) × (attempt ≡ returns (some g)) × (g.allowed ≡ true) × (carried ≡ some g))
      ⊎ ((attempt ≡ returns none) × (carried ≡ none))
answer_cases (raises exc) grant enforced carried same = absurd enforced
answer_cases (returns none) grant enforced carried same = inr (refl, same ∙ enforced)
answer_cases (returns (some g)) grant enforced carried same =
    inl (g, refl, enforced.0, same ∙ enforced.1)

abbrev pub Accepted : ProviderMode → Attempt (Option ProviderGrant) → Option ProviderGrant → Type 0
Accepted observe attempt grant = Unit
Accepted enforce attempt grant = Enforced attempt grant

module _ {S T : Type 0} (a : AuthorizeCall) (m : AuthorizeMoment) (frozen : FrozenToolCall) where
  pub weigh-ok :
      (mode : ProviderMode) (attempt : Attempt (Option ProviderGrant)) (b : Boundary S T)
      (x : AuthorizationContext)
      → (weigh a m frozen mode attempt b).0 ≡ ok x
      → (grant : Option ProviderGrant) × (x ≡ authorization a m frozen b.settings grant)
        × Accepted mode attempt grant
  unfolding weigh
  weigh-ok enforce (raises exc) b x h = cc
  weigh-ok observe (raises exc) b x h = (some (degraded_grant exc), cc, tt)
  weigh-ok observe (returns none) b x h = (none, cc, tt)
  weigh-ok enforce (returns none) b x h = (none, cc, refl)
  weigh-ok observe (returns (some g)) b x h = (some g, cc, tt)
  weigh-ok enforce (returns (some g)) b x h = elim (Bool-cases g.allowed) [
    | inl yes_it_is ↦ (some g, ground arith, (yes_it_is, refl))
    | inr no_it_is ↦ absurd (ground arith)
  ]

  pub weigh-observe :
      (mode : ProviderMode) (attempt : Attempt (Option ProviderGrant)) (b : Boundary S T)
      → mode ≡ observe
      → (x : AuthorizationContext) × ((weigh a m frozen mode attempt b).0 ≡ ok x)
  unfolding weigh
  weigh-observe observe (raises exc) b e = (_, refl)
  weigh-observe observe (returns none) b e = (_, refl)
  weigh-observe observe (returns (some g)) b e = (_, refl)
  weigh-observe enforce attempt b e = cc

-- an answer that enforce mode does not accept
abbrev pub Refuses : Attempt (Option ProviderGrant) → Type 0
Refuses (raises exc) = Unit
Refuses (returns none) = ⊥
Refuses (returns (some g)) = g.allowed ≡ false

-- the exception of a refusal: the class, and for a denial the provider and its reason
abbrev pub RefusedBy : Attempt (Option ProviderGrant) → Error → Type 0
RefusedBy (raises exc) (unavailable_provider f) = f.message ≡ Message.provider_unavailable exc
RefusedBy (returns (some g)) (denied_by_provider f) =
    (f.provider ≡ some g.provider) × (f.reason ≡ g.reason)
RefusedBy _ _ = ⊥

module _ {S T : Type 0} (a : AuthorizeCall) (m : AuthorizeMoment) (frozen : FrozenToolCall) where
  pub weigh-refused :
      (mode : ProviderMode) (attempt : Attempt (Option ProviderGrant)) (b : Boundary S T)
      → mode ≡ enforce
      → Refuses attempt
      → (e : Error) × (weigh a m frozen mode attempt b ≡ (raise e, b)) × RefusedBy attempt e
  unfolding weigh
  weigh-refused enforce (raises exc) b mode refused = (_, refl, refl)
  weigh-refused enforce (returns none) b mode refused = absurd refused
  weigh-refused enforce (returns (some g)) b mode refused =
      let f = failure b.settings a (Message.provider_denied g.reason) (some g.provider) g.reason in
      (denied_by_provider f, rw refused, (refl, refl))
  weigh-refused observe attempt b mode refused = cc

-- the call that the provider is shown: the caller's data, with their digest
abbrev pub shown_call : Hashing → Settings → AuthorizeCall → FrozenToolCall
shown_call H b a = freeze_with_digest H (frozen_call b a)

module _ (H : Hashing) (F : FloatParsing) (L : RateLimiter) (P : EvidenceProvider)
    (a : AuthorizeCall) (m : AuthorizeMoment) where
  -- the end of `authorize_allowed`, for a provider that is there or not
  abbrev pub consult :
      Boundary L.State P.State
      → Option P.State
      → Result AuthorizationContext × Boundary L.State P.State
  consult b o = elim o [
    | none ↦ (ok (authorization a m (shown_call H b.settings a) b.settings none), b)
    | some p ↦
        let (attempt, p') =
          P.authorize (shown_call H b.settings a)
            (allow_decision m.moment.decision_id b.settings a.call) p in
        weigh a m (shown_call H b.settings a) b.provider_mode attempt
          (record b { provider = some p' })
  ]

  pub consult-ok :
      (b : Boundary L.State P.State) (o : Option P.State) (x : AuthorizationContext)
      → (consult b o).0 ≡ ok x
      → (grant : Option ProviderGrant) × (x
          ≡ authorization a m (shown_call H b.settings a) b.settings grant)
        × ((p : P.State)
            → o ≡ some p
            → Accepted b.provider_mode
                (P.authorize
                  (shown_call H b.settings a)
                  (allow_decision m.moment.decision_id b.settings a.call)
                  p).0
                grant)
  consult-ok b none x h = (none, cc, λ p e. absurd (cc))
  consult-ok b (some q) x h =
      let call = shown_call H b.settings a in
      let local = allow_decision m.moment.decision_id b.settings a.call in
      let answer = P.authorize call local q in
      let w =
        weigh-ok a m call b.provider_mode answer.0 (record b { provider = some answer.1 }) x h in
      (
        w.0,
        w.1,
        λ p e.
            let same : q ≡ p = cc in
            subst (λ (r : P.State). Accepted b.provider_mode (P.authorize call local r).0 w.0) same
              w.2,
      )

  pub consult-observe :
      (b : Boundary L.State P.State) (o : Option P.State)
      → b.provider_mode ≡ observe
      → (x : AuthorizationContext) × ((consult b o).0 ≡ ok x)
  consult-observe b none mode = (_, refl)
  consult-observe b (some q) mode =
      let call = shown_call H b.settings a in
      let answer = P.authorize call (allow_decision m.moment.decision_id b.settings a.call) q in
      weigh-observe a m call b.provider_mode answer.0 (record b { provider = some answer.1 }) mode

  pub consult-refused :
      (b : Boundary L.State P.State) (p : P.State)
      → b.provider_mode ≡ enforce
      → (let answer =
            P.authorize
              (shown_call H b.settings a)
              (allow_decision m.moment.decision_id b.settings a.call)
              p in
          Refuses answer.0
          → (e : Error) × (consult b (some p) ≡ (raise e, record b { provider = some answer.1 }))
            × RefusedBy answer.0 e)
  consult-refused b p mode refused =
      let call = shown_call H b.settings a in
      let answer = P.authorize call (allow_decision m.moment.decision_id b.settings a.call) p in
      weigh-refused a m call b.provider_mode answer.0 (record b { provider = some answer.1 }) mode
        refused

  -- `authorize_call`, once `check` has ended
  abbrev pub resume :
      Result (Unit {0})
      → Boundary L.State P.State
      → Result AuthorizationContext × Boundary L.State P.State
  resume outcome b = elim outcome [
    | raise e ↦ (raise e, b)
    | ok u ↦ authorize_allowed H F L P a m b
  ]

  pub resume-raise :
      (r : Result (Unit {0})) (b : Boundary L.State P.State) (e : Error)
      → r ≡ raise e
      → resume r b ≡ (raise e, b)
  resume-raise r b e h = rw h

  pub resume-allowed :
      (r : Result (Unit {0})) (b : Boundary L.State P.State)
      → r ≡ ok tt
      → resume r b ≡ consult b b.provider
  unfolding authorize_allowed
  resume-allowed r b h = rw h

  pub resume-ok :
      (r : Result (Unit {0})) (b : Boundary L.State P.State) (x : AuthorizationContext)
      → (resume r b).0 ≡ ok x
      → (r ≡ ok tt) × ((consult b b.provider).0 ≡ ok x)
  unfolding authorize_allowed
  resume-ok (ok tt) b x h = (refl, h)
  resume-ok (raise e) b x h = cc
