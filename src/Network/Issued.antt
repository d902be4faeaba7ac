-- ===== src/Network/Issued.antt =====
-- From `TokenIssuer.issue` to the proxy: a token on its way, and a token that is sent again.
use toolboundary.Common.{
  ℕ, ◌+◌, ◌≡◌, ◌≤◌, ◌<◌, refl, ap, String, true, false, Option, some, List, [], ◌∷◌, arith, All,
}
use toolboundary.Common.Dict.{lookup, contains}
use toolboundary.Tokens.{
  AuthorizationToken, Crypto, CryptoLaws, IsHex, ok, TokenIssuer, from_wire, to_wire, issue, verify,
}
use toolboundary.Tokens.Wire.{HasNoDot, from_wire-to_wire}
use toolboundary.Tokens.Issuer.{MetOperation, verify_iff}
use toolboundary.Tokens.Store.{TokenStore, InMemoryTokenStore, in_memory_store, marked_again_late}
use toolboundary.Network.{UpstreamRoute, NetworkEnforcer, Readings, use_up, authorize_and_resolve}
use toolboundary.Network.Decision.{
  allowed, expected_by, Admitted, authorize-Admitted, authorize_iff,
}

IsHex-HasNoDot : (s : List ℕ) → All IsHex s → HasNoDot s
IsHex-HasNoDot [] h = tt
IsHex-HasNoDot (c ∷ s) h = (ground (arith, h.0), IsHex-HasNoDot s h.1)

module _ (K : Crypto) (laws : CryptoLaws K) (T : TokenStore) where
  -- With codecs that decode what they encode, and hexadecimal signatures, a token that is issued
  -- for a tool and an operation, sent in its wire form to a proxy that holds the issuer's secret,
  -- is let through to the base URL of the tool's route, if the route requires no other operation,
  -- the token's time has not run out and the store marks its id as first used.
  pub issued_passes :
      (issuer : TokenIssuer) (now : ℕ) (token_id agent_name tool_name : String)
      (operation : Option String) (route : UpstreamRoute) (at : Readings)
      (n : NetworkEnforcer T.State)
      → n.issuer.secret ≡ issuer.secret
      → lookup tool_name n.routes ≡ some route
      → MetOperation route.required_operation operation
      → at.verify_now ≤ now + issuer.ttl_seconds
      → (T.mark_used token_id (now + issuer.ttl_seconds) at.mark_now n.token_store).0 ≡ true
      → (authorize_and_resolve K T tool_name
          (some (to_wire K (issue K issuer now token_id agent_name tool_name operation)))
          at
          n).0
        ≡ allowed route.upstream_base_url
  unfolding issue
  issued_passes issuer now token_id agent_name tool_name operation route at n secret routed required
        le first =
      let t = issue K issuer now token_id agent_name tool_name operation in
      (authorize_iff K T tool_name (some (to_wire K t)) at n route.upstream_base_url).1 (
        record {
          route = route;
          wire = to_wire K t;
          token = t;
          routed = routed;
          carried = refl;
          parsed =
              from_wire-to_wire K laws t
                (IsHex-HasNoDot t.signature (laws.sign-hex issuer.secret t.payload));
          verified =
              (verify_iff K laws n.issuer at.verify_now t (expected_by tool_name route)).1 (record {
                signed = rw secret;
                in_time = le;
                agent = λ s e. cc;
                tool = λ s e. cc;
                operation = required;
              });
          first = first;
        },
        refl,
      )

module _ (K : Crypto) (n : NetworkEnforcer InMemoryTokenStore) where
  abbrev first_request : String → List ℕ → Readings → NetworkEnforcer InMemoryTokenStore
  first_request tool_name wire at =
      (authorize_and_resolve K in_memory_store tool_name (some wire) at n).1

  -- With the in-memory store, a token that `verify` accepts at both requests, for a registered
  -- tool, and whose id the store does not hold before the first, is let through by both, if the
  -- second request reads a time past the token's expiry when the store marks it.
  pub replayed_past_expiry :
      (tool_name : String) (route : UpstreamRoute) (wire : List ℕ) (t : AuthorizationToken)
      (at at' : Readings)
      → lookup tool_name n.routes ≡ some route
      → from_wire K wire ≡ ok t
      → verify K n.issuer at.verify_now t (expected_by tool_name route) ≡ ok tt
      → verify K n.issuer at'.verify_now t (expected_by tool_name route) ≡ ok tt
      → contains t.token_id n.token_store.used ≡ false
      → t.expires_at < at'.mark_now
      → ((authorize_and_resolve K in_memory_store tool_name (some wire) at n).0
          ≡ allowed route.upstream_base_url)
        × ((authorize_and_resolve K in_memory_store tool_name
              (some wire)
              at'
              (first_request tool_name wire at)).0
            ≡ allowed route.upstream_base_url)
  unfolding use_up
  replayed_past_expiry tool_name route wire t at at' routed parsed verified verified' unknown late =
      let again =
        marked_again_late t.token_id t.expires_at t.expires_at at.mark_now at'.mark_now
          n.token_store unknown late in
      let a : Admitted K in_memory_store tool_name (some wire) at n = record {
        route = route;
        wire = wire;
        token = t;
        routed = routed;
        carried = refl;
        parsed = parsed;
        verified = verified;
        first = again.0;
      } in
      let next =
        ap (λ r. r.1) (authorize-Admitted K in_memory_store tool_name at n (some wire) a) in
      (
        (authorize_iff K in_memory_store tool_name (some wire) at n route.upstream_base_url).1
            (a, refl),
        rw next (
            (authorize_iff K in_memory_store tool_name (some wire) at' _ route.upstream_base_url).1
              (
                record {
                  route = route;
                  wire = wire;
                  token = t;
                  routed = routed;
                  carried = refl;
                  parsed = parsed;
                  verified = verified';
                  first = again.1;
                },
                refl,
              )),
      )
