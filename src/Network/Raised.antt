-- ===== src/Network/Raised.antt =====
-- A request whose signature is not ASCII.
use toolboundary.Common.{ℕ, ◌≡◌, String, false, some, List, arith, ◌∙◌}
use toolboundary.Common.Dict.{lookup}
use toolboundary.Tokens.{
  AuthorizationToken, Crypto, CryptoLaws, type_error, fail, TokenIssuer, Expected, is_ascii,
  compare_digest, to_wire, verify,
}
use toolboundary.Tokens.Wire.{HasNoDot, from_wire-to_wire}
use toolboundary.Tokens.Store.{TokenStore}
use toolboundary.Network.{
  UpstreamRoute, NetworkEnforcer, raised, Readings, refusal, authorize_and_resolve,
}
use toolboundary.Network.Decision.{expected_by, authorize-parsed, admit-refused}

compare_digest-raises : (a b : List ℕ) → is_ascii b ≡ false → compare_digest a b ≡ fail type_error
unfolding compare_digest
compare_digest-raises a b h = ground arith

verify-raises :
    (K : Crypto) (issuer : TokenIssuer) (now : ℕ) (t : AuthorizationToken) (x : Expected)
    → is_ascii t.signature ≡ false
    → verify K issuer now t x ≡ fail type_error
unfolding verify
verify-raises K issuer now t x h =
    rw (compare_digest-raises (K.sign issuer.secret t.payload) t.signature h, verify)

-- With codecs that decode what they encode, a request for a registered tool, with any payload and a
-- signature that has no dot and is not ASCII, gets no answer: an exception leaves the method, which
-- changes nothing.
pub raised_on_non_ascii :
    (K : Crypto) (laws : CryptoLaws K) (T : TokenStore) (tool_name : String) (route : UpstreamRoute)
    (t : AuthorizationToken) (at : Readings) (n : NetworkEnforcer T.State)
    → lookup tool_name n.routes ≡ some route
    → HasNoDot t.signature
    → is_ascii t.signature ≡ false
    → authorize_and_resolve K T tool_name (some (to_wire K t)) at n ≡ (raised, n)
unfolding refusal
raised_on_non_ascii K laws T tool_name route t at n routed no_dot odd =
    authorize-parsed K T tool_name (to_wire K t) at n route t routed
      (from_wire-to_wire K laws t no_dot)
    ∙ admit-refused K T tool_name at n route t type_error
        (verify-raises K n.issuer at.verify_now t (expected_by tool_name route) odd)
