-- ===== src/Network.antt =====
-- src/toolboundary/network.py: the decision of the enforcement proxy on a request, over any token
-- store. The clock is read twice: by the test of the token and by the store.
pub mod Decision
pub mod Replay
pub mod Fleet
pub mod Lifecycle
pub mod Upstream
pub mod Raised
pub mod Issued
pub mod Handler
use toolboundary.Common.{
  ℕ, String, Bool, true, false, if◌then◌else◌, Option, none, some, List, [], ◌∷◌,
}
use toolboundary.Common.Dict.{Dict, lookup, insert}
use toolboundary.Tokens.{
  AuthorizationToken, Crypto, Failure, expired, type_error, key_error, ok, fail, Checked, Expected,
  TokenIssuer, from_wire, verify,
}
use toolboundary.Tokens.Store.{TokenStore}

pub record UpstreamRoute : Type 0 where
  pub tool_name : String
  pub upstream_base_url : String
  pub required_operation : Option String

pub record NetworkEnforcer (S : Type 0) : Type 0 where
  pub issuer : TokenIssuer
  pub routes : Dict UpstreamRoute
  pub token_store : S

-- the triple that is returned, or the TypeError that `hmac.compare_digest` raises
pub data Answer : Type 0 where
  answer : Bool → String → Option String → Answer
  raised : Answer

abbrev pub denied : String → Answer
denied reason = answer false reason none

-- the two readings of the clock
pub record Readings : Type 0 where
  pub verify_now : ℕ
  pub mark_now : ℕ

unfoldable pub add_route : {S : Type 0} → UpstreamRoute → NetworkEnforcer S → NetworkEnforcer S
add_route route n = record {
  issuer = n.issuer;
  routes = insert route.tool_name route n.routes;
  token_store = n.token_store;
}

-- the constructor: each route under its tool, a later one in place of an earlier. Its test that
-- max_body_bytes is not negative is the type of that argument of the handler.
unfoldable pub init : {S : Type 0} → TokenIssuer → List UpstreamRoute → S → NetworkEnforcer S
unfolding add_route
init issuer routes store =
    add_all routes (record { issuer = issuer; routes = []; token_store = store })
  where
    add_all : {S : Type 0} → List UpstreamRoute → NetworkEnforcer S → NetworkEnforcer S
    add_all [] n = n
    add_all (r ∷ rs) n = add_all rs (add_route r n)

-- `except TokenExpired`, `except TokenInvalid`, and what neither catches
unfoldable pub refusal : Failure → Answer
refusal expired = denied "TOKEN_EXPIRED"
refusal type_error = raised
refusal key_error = raised
refusal _ = denied "TOKEN_INVALID"

module _ (K : Crypto) (T : TokenStore) where
  -- the last step: the token id is used up
  unfoldable pub use_up :
      UpstreamRoute
      → AuthorizationToken
      → ℕ
      → NetworkEnforcer T.State
      → Answer × NetworkEnforcer T.State
  use_up route t now n =
      let (first_use, store) = T.mark_used t.token_id t.expires_at now n.token_store in
      (
        if first_use
            then answer true "ALLOWED" (some route.upstream_base_url)
            else denied "TOKEN_ALREADY_USED",
        record { issuer = n.issuer; routes = n.routes; token_store = store },
      )

  -- the test of a token for the tool and for the operation of the route
  unfoldable pub admit :
      String
      → UpstreamRoute
      → AuthorizationToken
      → Readings
      → NetworkEnforcer T.State
      → Answer × NetworkEnforcer T.State
  unfolding refusal
  admit tool_name route t at n =
      elim (verify K n.issuer at.verify_now t (record {
        agent_name = none;
        tool_name = some tool_name;
        operation = route.required_operation;
      })) [ fail f ↦ (refusal f, n) | ok u ↦ use_up route t at.mark_now n ]

  unfoldable pub authorize_and_resolve :
      String
      → Option (List ℕ)
      → Readings
      → NetworkEnforcer T.State
      → Answer × NetworkEnforcer T.State
  unfolding lookup
  authorize_and_resolve tool_name token_wire at n = elim (lookup tool_name n.routes) [
    | none ↦ (denied "UNKNOWN_ROUTE", n)
    | some route ↦ elim token_wire [
      | none ↦ (denied "MISSING_TOKEN", n)
      | some [] ↦ (denied "MISSING_TOKEN", n)
      | some (c ∷ wire) ↦ elim (from_wire K (c ∷ wire)) [
        | fail f ↦ (denied "MALFORMED_TOKEN", n)
        | ok t ↦ admit tool_name route t at n
      ]
    ]
  ]
