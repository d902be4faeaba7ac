-- ===== src/Network/Decision.antt =====
-- Which requests `NetworkEnforcer.authorize_and_resolve` lets through.
use toolboundary.Common.{
  ℕ, ◌≡◌, refl, sym, ap, ◌∙◌, ◌↔◌, inl, inr, String, Bool, true, false, Option, none, some, List,
  [], ◌∷◌, arith, Option-cases,
}
use toolboundary.Common.Dict.{lookup}
use toolboundary.Tokens.{
  AuthorizationToken, Crypto, Failure, malformed, wrong_signature, wrong_agent, wrong_tool,
  wrong_operation, expired, type_error, key_error, ok, fail, Expected, Checked-cases, from_wire,
  verify, rsplit_dot,
}
use toolboundary.Tokens.Store.{TokenStore}
use toolboundary.Network.{
  UpstreamRoute, NetworkEnforcer, Answer, answer, raised, denied, Readings, refusal, use_up, admit,
  authorize_and_resolve,
}

abbrev pub expected_by : String → UpstreamRoute → Expected
expected_by tool_name route = record {
  agent_name = none;
  tool_name = some tool_name;
  operation = route.required_operation;
}

abbrev pub allowed : String → Answer
allowed url = answer true "ALLOWED" (some url)

-- the answer lets the request through
abbrev pub lets_through : Answer → Bool
lets_through (answer b reason url) = b
lets_through raised = false

module _ (K : Crypto) (T : TokenStore) where
  -- The request names a registered tool and carries the wire form of a token that the issuer
  -- accepts for it, and whose id the store marks as first used.
  pub record Admitted (tool_name : String) (token_wire : Option (List ℕ)) (at : Readings)
      (n : NetworkEnforcer T.State) : Type 0 where
    pub route : UpstreamRoute
    pub wire : List ℕ
    pub token : AuthorizationToken
    pub routed : lookup tool_name n.routes ≡ some route
    pub carried : token_wire ≡ some wire
    pub parsed : from_wire K wire ≡ ok token
    pub verified : verify K n.issuer at.verify_now token (expected_by tool_name route) ≡ ok tt
    pub first : (T.mark_used token.token_id token.expires_at at.mark_now n.token_store).0 ≡ true

  -- no token is read from an empty text
  from_wire-empty : (t : AuthorizationToken) → from_wire K [] ≡ ok t → ⊥
  unfolding from_wire rsplit_dot
  from_wire-empty t h = cc h

  pub authorize-parsed :
      (tool_name : String) (wire : List ℕ) (at : Readings) (n : NetworkEnforcer T.State)
      (route : UpstreamRoute) (t : AuthorizationToken)
      → lookup tool_name n.routes ≡ some route
      → from_wire K wire ≡ ok t
      → authorize_and_resolve K T tool_name (some wire) at n ≡ admit K T tool_name route t at n
  unfolding authorize_and_resolve
  authorize-parsed tool_name [] at n route t routed parsed = absurd (from_wire-empty t parsed)
  authorize-parsed tool_name (c ∷ wire) at n route t routed parsed =
      rw (routed, parsed, authorize_and_resolve)

  admit-verified :
      (tool_name : String) (route : UpstreamRoute) (t : AuthorizationToken) (at : Readings)
      (n : NetworkEnforcer T.State)
      → verify K n.issuer at.verify_now t (expected_by tool_name route) ≡ ok tt
      → admit K T tool_name route t at n ≡ use_up K T route t at.mark_now n
  unfolding admit
  admit-verified tool_name route t at n h = rw (h, admit)

  module _ (tool_name : String) (at : Readings) (n : NetworkEnforcer T.State) where
    -- the answer to an admitted request
    pub authorize-Admitted :
        (token_wire : Option (List ℕ)) (a : Admitted tool_name token_wire at n)
        → authorize_and_resolve K T tool_name token_wire at n
          ≡ use_up K T a.route a.token at.mark_now n
    authorize-Admitted token_wire a = rw a.carried (
        authorize-parsed tool_name a.wire at n a.route a.token a.routed a.parsed
        ∙ admit-verified tool_name a.route a.token at n a.verified)

    use_up-first :
        (route : UpstreamRoute) (t : AuthorizationToken)
        → (T.mark_used t.token_id t.expires_at at.mark_now n.token_store).0 ≡ true
        → (use_up K T route t at.mark_now n).0 ≡ allowed route.upstream_base_url
    unfolding use_up
    use_up-first route t h = rw h

    first-use_up :
        (route : UpstreamRoute) (t : AuthorizationToken)
        → lets_through (use_up K T route t at.mark_now n).0 ≡ true
        → (T.mark_used t.token_id t.expires_at at.mark_now n.token_store).0 ≡ true
    unfolding use_up
    first-use_up route t h = ground arith

    refusal-denies : (f : Failure) → lets_through (refusal f) ≡ false
    unfolding refusal
    refusal-denies malformed = refl
    refusal-denies wrong_signature = refl
    refusal-denies wrong_agent = refl
    refusal-denies wrong_tool = refl
    refusal-denies wrong_operation = refl
    refusal-denies expired = refl
    refusal-denies type_error = refl
    refusal-denies key_error = refl

    pub admit-refused :
        (route : UpstreamRoute) (t : AuthorizationToken) (f : Failure)
        → verify K n.issuer at.verify_now t (expected_by tool_name route) ≡ fail f
        → admit K T tool_name route t at n ≡ (refusal f, n)
    unfolding admit
    admit-refused route t f e = rw (e, admit)

    -- a token that was read, and let through
    verified-admit :
        (route : UpstreamRoute) (t : AuthorizationToken)
        → lets_through (admit K T tool_name route t at n).0 ≡ true
        → (verify K n.issuer at.verify_now t (expected_by tool_name route) ≡ ok tt)
          × (lets_through (use_up K T route t at.mark_now n).0 ≡ true)
    unfolding admit
    verified-admit route t h =
        elim (Checked-cases (verify K n.issuer at.verify_now t (expected_by tool_name route))) [
          | inl (u, e) ↦
              (e, sym (ap (λ r. lets_through r.0) (admit-verified tool_name route t at n e)) ∙ h)
          | inr (f, e) ↦ absurd (
              cc (refusal-denies f, sym h ∙ ap (λ r. lets_through r.0) (admit-refused route t f e)))
        ]

    authorize-unrouted :
        (token_wire : Option (List ℕ))
        → lookup tool_name n.routes ≡ none
        → authorize_and_resolve K T tool_name token_wire at n ≡ (denied "UNKNOWN_ROUTE", n)
    unfolding authorize_and_resolve
    authorize-unrouted token_wire e = rw (e, authorize_and_resolve)

    authorize-malformed :
        (wire : List ℕ) (f : Failure)
        → from_wire K wire ≡ fail f
        → lets_through (authorize_and_resolve K T tool_name (some wire) at n).0 ≡ false
    unfolding authorize_and_resolve
    authorize-malformed [] f e = elim (Option-cases (lookup tool_name n.routes)) [
      | inl unknown ↦ rw (unknown, authorize_and_resolve)
      | inr (route, known) ↦ rw (known, authorize_and_resolve)
    ]
    authorize-malformed (c ∷ rest) f e = elim (Option-cases (lookup tool_name n.routes)) [
      | inl unknown ↦ rw (unknown, authorize_and_resolve)
      | inr (route, known) ↦ rw (known, e, authorize_and_resolve)
    ]

    authorize-missing : lets_through (authorize_and_resolve K T tool_name none at n).0 ≡ false
    unfolding authorize_and_resolve
    authorize-missing = elim (Option-cases (lookup tool_name n.routes)) [
      | inl unknown ↦ rw (authorize-unrouted none unknown)
      | inr (route, known) ↦ rw (known, authorize_and_resolve)
    ]

    -- a request that is let through is admitted
    pub Admitted-authorize :
        (token_wire : Option (List ℕ))
        → lets_through (authorize_and_resolve K T tool_name token_wire at n).0 ≡ true
        → Admitted tool_name token_wire at n
    Admitted-authorize none h = absurd (cc (authorize-missing, h))
    Admitted-authorize (some wire) h = elim (Option-cases (lookup tool_name n.routes)) [
      | inl unknown ↦
          absurd (cc (ap (λ r. lets_through r.0) (authorize-unrouted (some wire) unknown), h))
      | inr (route, known) ↦ elim (Checked-cases (from_wire K wire)) [
        | inr (f, e) ↦ absurd (cc (authorize-malformed wire f e, h))
        | inl (t, parsed) ↦
            let (verified, used) =
              verified-admit route t
                (rw (authorize-parsed tool_name wire at n route t known parsed) at h) in
            record {
              route = route;
              wire = wire;
              token = t;
              routed = known;
              carried = refl;
              parsed = parsed;
              verified = verified;
              first = first-use_up route t used;
            }
      ]
    ]

  -- the answer to an admitted request allows it, with its route's URL
  pub Admitted-answer :
      (tool_name : String) (token_wire : Option (List ℕ)) (at : Readings)
      (n : NetworkEnforcer T.State) (a : Admitted tool_name token_wire at n)
      → (authorize_and_resolve K T tool_name token_wire at n).0 ≡ allowed a.route.upstream_base_url
  Admitted-answer tool_name token_wire at n a =
      ap (λ r. r.0) (authorize-Admitted tool_name at n token_wire a)
      ∙ use_up-first tool_name at n a.route a.token a.first

  -- A request is answered as allowed, with an upstream's base URL, exactly when its tool has a
  -- route with that URL, its header parses to a token that `verify` accepts for the tool and the
  -- operation of the route, and the store marks the token's id as first used.
  pub authorize_iff :
      (tool_name : String) (token_wire : Option (List ℕ)) (at : Readings)
      (n : NetworkEnforcer T.State) (url : String)
      → ((authorize_and_resolve K T tool_name token_wire at n).0 ≡ allowed url)
        ↔ ((a : Admitted tool_name token_wire at n) × (a.route.upstream_base_url ≡ url))
  authorize_iff tool_name token_wire at n url = (
    λ h.
        let a = Admitted-authorize tool_name at n token_wire (ap lets_through h) in
        (
          a,
          cc (
            h,
            ap (λ r. r.0) (authorize-Admitted tool_name at n token_wire a),
            use_up-first tool_name at n a.route a.token a.first,
          ),
        ),
    λ (a, same).
        ap (λ r. r.0) (authorize-Admitted tool_name at n token_wire a)
        ∙ use_up-first tool_name at n a.route a.token a.first
        ∙ ap allowed same,
  )
