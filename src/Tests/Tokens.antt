-- ===== src/Tests/Tokens.antt =====
-- Tokens, and a proxy with one route.
use toolboundary.Common.{
  ℕ, ◌≡◌, ◌≢◌, ◌≤◌, ◌↔◌, refl, inr, true, false, none, some, List, [], ◌∷◌, arith, All,
}
use toolboundary.Common.Dict.{lookup, contains}
use toolboundary.Exceptions.{Result}
use toolboundary.Provider.{enforce}
use toolboundary.RateLimiter.Contract.{in_memory}
use toolboundary.Tokens.{
  Payload, AuthorizationToken, Crypto, CryptoLaws, ok, TokenIssuer, from_wire, to_wire, is_ascii,
  issue, verify,
}
use toolboundary.Tokens.Wire.{from_wire-to_wire}
use toolboundary.Tokens.Issuer.{Authentic, verify_iff}
use toolboundary.Tokens.Store.{
  InMemoryTokenStore, gc, mark_used, in_memory_store, in_memory-SingleUse,
}
use toolboundary.Network.{UpstreamRoute, NetworkEnforcer, raised, Readings, authorize_and_resolve}
use toolboundary.Network.Decision.{lets_through, allowed, expected_by, Admitted, authorize_iff}
use toolboundary.Network.Replay.{request, route_added, run, single_use}
use toolboundary.Network.Issued.{issued_passes, replayed_past_expiry}
use toolboundary.Network.Raised.{raised_on_non_ascii}
use toolboundary.Boundary.Policy.{Permits}
use toolboundary.Boundary.Token.{IssueMoment, check_and_authorize}
use toolboundary.Boundary.Token.Guarantees.{check_and_authorize-allowed, token_is_spendable}
use toolboundary.Tests.Codec.{encode, decode, decode-encode}
use toolboundary.Tests.Data.{parsing, agent_settings, agent_boundary, search_call, at_seven}
use toolboundary.Tests.Local.{search_allowed}

-- every signature is "ab"
abbrev pub crypto : Crypto
crypto = record { sign = λ secret p. b'a' ∷ b'b' ∷ []; encode = encode; decode = decode }

pub crypto_laws : CryptoLaws crypto
crypto_laws = record {
  sign-hex = λ secret p. (inr (omega arith, omega arith), (inr (omega arith, omega arith), tt));
  decode-encode = decode-encode;
}

abbrev pub issuer : TokenIssuer
issuer = record { secret = "s"; ttl_seconds = 30 }

abbrev search_payload : Payload
search_payload = record {
  token_id = "t1";
  agent_name = "agent";
  tool_name = "search";
  operation = none;
  issued_at = 7;
  expires_at = 37;
}

abbrev search_token : AuthorizationToken
search_token = record { payload = search_payload; signature = b'a' ∷ b'b' ∷ [] }

abbrev pub search_route : UpstreamRoute
search_route = record {
  tool_name = "search";
  upstream_base_url = "https://search";
  required_operation = none;
}

abbrev pub proxy : NetworkEnforcer InMemoryTokenStore
proxy = record {
  issuer = issuer;
  routes = ("search", search_route) ∷ [];
  token_store = record { used = [] };
}

abbrev pub at : ℕ → Readings
at now = record { verify_now = now; mark_now = now }

abbrev pub wire : List ℕ
wire = to_wire crypto search_token

no_dot : All (λ c. c ≢ 46) search_token.signature
no_dot = (λ e. omega (arith, e), (λ e. omega (arith, e), tt))

parsed : from_wire crypto wire ≡ ok search_token
parsed = from_wire-to_wire crypto crypto_laws search_token no_dot

verify_iff_example :
    (verify crypto issuer 9 search_token (expected_by "search" search_route) ≡ ok tt)
    ↔ Authentic crypto issuer 9 search_token (expected_by "search" search_route)
verify_iff_example =
    verify_iff crypto crypto_laws issuer 9 search_token (expected_by "search" search_route)

authorize_iff_example :
    ((authorize_and_resolve crypto in_memory_store "search" (some wire) (at 9) proxy).0
      ≡ allowed "https://search")
    ↔ ((a : Admitted crypto in_memory_store "search" (some wire) (at 9) proxy)
        × (a.route.upstream_base_url ≡ "https://search"))
authorize_iff_example =
    authorize_iff crypto in_memory_store "search" (some wire) (at 9) proxy "https://search"

routed : lookup "search" proxy.routes ≡ some search_route
unfolding lookup
routed = refl

first_marked : (mark_used "t1" 37 9 proxy.token_store).0 ≡ true
unfolding mark_used gc contains
first_marked = refl

-- the token passes
pub search_passes :
    (authorize_and_resolve crypto in_memory_store "search" (some wire) (at 9) proxy).0
    ≡ allowed "https://search"
unfolding issue
search_passes =
    issued_passes crypto crypto_laws in_memory_store issuer 7 "t1" "agent" "search" none
      search_route (at 9) proxy refl routed (λ s e. cc) (omega arith) first_marked

issued_passes_example :
    (authorize_and_resolve crypto in_memory_store "search"
      (some (to_wire crypto (issue crypto issuer 7 "t1" "agent" "search" none)))
      (at 9)
      proxy).0
    ≡ allowed "https://search"
issued_passes_example =
    issued_passes crypto crypto_laws in_memory_store issuer 7 "t1" "agent" "search" none
      search_route (at 9) proxy refl routed (λ s e. cc) (omega arith) first_marked

verified :
    (now : ℕ)
    → now ≤ 37
    → verify crypto issuer now search_token (expected_by "search" search_route) ≡ ok tt
verified now le =
    (verify_iff crypto crypto_laws issuer now search_token (expected_by "search" search_route)).1
      (record {
        signed = refl;
        in_time = le;
        agent = λ s e. cc;
        tool = λ s e. cc;
        operation = λ s e. cc;
      })

passed :
    lets_through (authorize_and_resolve crypto in_memory_store "search" (some wire) (at 9) proxy).0
    ≡ true
unfolding issue
passed = cc search_passes

single_use_example :
    lets_through
      (authorize_and_resolve crypto in_memory_store "search" (some wire) (at 20) (
        run crypto in_memory_store
          (request "search" none (at 12) ∷ route_added search_route ∷ [])
          (authorize_and_resolve crypto in_memory_store "search" (some wire) (at 9) proxy).1)).0
    ≡ false
single_use_example =
    single_use crypto in_memory_store in_memory-SingleUse crypto_laws "search" "search" wire (at 9)
      (at 20) (request "search" none (at 12) ∷ route_added search_route ∷ []) proxy passed
      (omega arith, (tt, tt)) (omega arith)

unknown : contains "t1" proxy.token_store.used ≡ false
unfolding contains
unknown = refl

replayed_past_expiry_example :
    let late : Readings = record { verify_now = 37; mark_now = 38 } in
    let (first, proxy') =
      authorize_and_resolve crypto in_memory_store "search" (some wire) (at 9) proxy in
    (first ≡ allowed "https://search")
    × ((authorize_and_resolve crypto in_memory_store "search" (some wire) late proxy').0
        ≡ allowed "https://search")
replayed_past_expiry_example =
    replayed_past_expiry crypto proxy "search" search_route wire search_token (at 9)
      (record { verify_now = 37; mark_now = 38 }) routed parsed (verified 9 (omega arith))
      (verified 37 (omega arith)) unknown (omega arith)

-- a signature of the one character é
abbrev odd_token : AuthorizationToken
odd_token = record { payload = search_payload; signature = 233 ∷ [] }

odd : is_ascii odd_token.signature ≡ false
unfolding is_ascii
odd = refl

raised_on_non_ascii_example :
    authorize_and_resolve crypto in_memory_store "search"
      (some (to_wire crypto odd_token))
      (at 9)
      proxy
    ≡ (raised, proxy)
raised_on_non_ascii_example =
    raised_on_non_ascii crypto crypto_laws in_memory_store "search" search_route odd_token (at 9)
      proxy routed (λ e. omega (arith, e), tt) odd

abbrev issuing : IssueMoment
issuing = record { now = 7; token_id = "t1" }

token_given :
    (check_and_authorize crypto parsing in_memory
      (some issuer)
      at_seven
      issuing
      search_call
      agent_boundary).0
    ≡ Result.ok search_token
unfolding issue
token_given =
    check_and_authorize-allowed crypto crypto_laws parsing in_memory issuer at_seven issuing
      search_call agent_boundary (search_allowed enforce none)

token_is_spendable_example :
    Permits parsing at_seven agent_settings search_call
    × ((authorize_and_resolve crypto in_memory_store "search" (some wire) (at 9) proxy).0
        ≡ allowed "https://search")
token_is_spendable_example =
    token_is_spendable crypto crypto_laws parsing in_memory issuer at_seven issuing search_call
      agent_boundary search_token in_memory_store search_route (at 9) proxy token_given refl routed
      (λ s e. cc) (omega arith) first_marked
