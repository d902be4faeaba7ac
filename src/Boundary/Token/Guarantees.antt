-- ===== src/Boundary/Token/Guarantees.antt =====
-- What a token of `check_and_authorize` stands for, at the boundary and at the proxy.
use toolboundary.Common.{◌+◌, ◌≤◌, ◌≡◌, refl, sym, ap, true, Option, none, some}
use toolboundary.Common.Dict.{lookup}
use toolboundary.Exceptions.{Result, ok, raise}
use toolboundary.Numeric.{FloatParsing}
use toolboundary.RateLimiter.Interface.{RateLimiter}
use toolboundary.Tokens.{Crypto, CryptoLaws, AuthorizationToken, TokenIssuer, issue, to_wire}
use toolboundary.Tokens.Issuer.{MetOperation}
use toolboundary.Tokens.Store.{TokenStore}
use toolboundary.Network.{UpstreamRoute, NetworkEnforcer, Readings, authorize_and_resolve}
use toolboundary.Network.Decision.{allowed}
use toolboundary.Network.Issued.{issued_passes}
use toolboundary.Boundary.{Boundary}
use toolboundary.Boundary.Check.{Call, Moment, check}
use toolboundary.Boundary.Policy.{Permits}
use toolboundary.Boundary.Guarantees.{check_iff}
use toolboundary.Boundary.Token.{IssueMoment, check_and_authorize}

module _ {S P : Type 0} where
  abbrev hand_out :
      AuthorizationToken
      → Result (Unit {0})
      → Boundary S P
      → Result AuthorizationToken × Boundary S P
  hand_out t r b = elim r [ raise e ↦ (raise e, b) | ok u ↦ (ok t, b) ]

  hand_out-ok :
      (t t' : AuthorizationToken) (r : Result (Unit {0})) (b : Boundary S P)
      → (hand_out t r b).0 ≡ ok t'
      → (r ≡ ok tt) × (t' ≡ t)
  hand_out-ok t t' (ok u) b h = (refl, cc)
  hand_out-ok t t' (raise e) b h = absurd (cc)

module _ (K : Crypto) (laws : CryptoLaws K) (F : FloatParsing) (L : RateLimiter) {P : Type 0} where
  token-issued :
      (issuer : Option TokenIssuer) (m : Moment) (i : IssueMoment) (c : Call)
      (b : Boundary L.State P) (t : AuthorizationToken)
      → (check_and_authorize K F L issuer m i c b).0 ≡ ok t
      → (own : TokenIssuer) × (issuer ≡ some own)
        × ((check F L m c b).0 ≡ ok tt)
        × (t ≡ issue K own i.now i.token_id b.agent_name c.tool_name c.operation)
  unfolding check_and_authorize check
  token-issued none m i c b t h = absurd (cc)
  token-issued (some own) m i c b t h =
      let split =
        hand_out-ok (issue K own i.now i.token_id b.agent_name c.tool_name c.operation) t
          (check F L m c b).0 (check F L m c b).1 h in
      (own, refl, split.0, split.1)

  -- an allowed call gets its token
  pub check_and_authorize-allowed :
      (own : TokenIssuer) (m : Moment) (i : IssueMoment) (c : Call) (b : Boundary L.State P)
      → (check F L m c b).0 ≡ ok tt
      → (check_and_authorize K F L (some own) m i c b).0
        ≡ ok (issue K own i.now i.token_id b.agent_name c.tool_name c.operation)
  unfolding check_and_authorize check
  check_and_authorize-allowed own m i c b h =
      let t = issue K own i.now i.token_id b.agent_name c.tool_name c.operation in
      ap (λ (r : Result (Unit {0})). (hand_out t r (check F L m c b).1).0) h

  -- With codecs that decode what they encode, and hexadecimal signatures: if `check_and_authorize`
  -- returns a token, the policy permits the call; and a proxy that holds the secret of the
  -- boundary's issuer lets the token's wire form through to the base URL of the tool's route, if
  -- the route requires no other operation, the issuer's time to live has not run out and the store
  -- marks the token's id as first used.
  pub token_is_spendable :
      (issuer : TokenIssuer) (m : Moment) (i : IssueMoment) (c : Call) (b : Boundary L.State P)
      (t : AuthorizationToken) (T : TokenStore) (route : UpstreamRoute) (at : Readings)
      (n : NetworkEnforcer T.State)
      → (check_and_authorize K F L (some issuer) m i c b).0 ≡ ok t
      → n.issuer.secret ≡ issuer.secret
      → lookup c.tool_name n.routes ≡ some route
      → MetOperation route.required_operation c.operation
      → at.verify_now ≤ i.now + issuer.ttl_seconds
      → (T.mark_used i.token_id (i.now + issuer.ttl_seconds) at.mark_now n.token_store).0 ≡ true
      → Permits F m b.settings c
        × ((authorize_and_resolve K T c.tool_name (some (to_wire K t)) at n).0
            ≡ allowed route.upstream_base_url)
  token_is_spendable issuer m i c b t T route at n h secret routed required le first =
      let (own, same, passed, issued) = token-issued (some issuer) m i c b t h in
      let mine : issuer ≡ own = cc in
      (
        ((check_iff F L m c b).0 passed).0,
        rw (issued, sym mine)
            (issued_passes K laws T issuer i.now i.token_id b.agent_name c.tool_name c.operation
              route at n secret routed required le first),
      )
