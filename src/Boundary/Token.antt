-- ===== src/Boundary/Token.antt =====
-- `Boundary.check_and_authorize` of src/toolboundary/boundary.py: a token for the enforcement
-- proxy.
pub mod Guarantees
use toolboundary.Common.{ℕ, String, Option, none, some}
use toolboundary.Exceptions.{Message, configuration_error, Result, ok, raise}
use toolboundary.Numeric.{FloatParsing}
use toolboundary.RateLimiter.Interface.{RateLimiter}
use toolboundary.Tokens.{Crypto, AuthorizationToken, TokenIssuer, issue}
use toolboundary.Boundary.{Boundary}
use toolboundary.Boundary.Check.{Call, Moment, check}

-- what `TokenIssuer.issue` reads: the clock, and the random id
pub record IssueMoment : Type 0 where
  pub now : ℕ
  pub token_id : String

module _ (K : Crypto) (F : FloatParsing) (L : RateLimiter) where
  -- the first argument is `self._token_issuer`
  unfoldable pub check_and_authorize :
      {P : Type 0}
      → Option TokenIssuer
      → Moment
      → IssueMoment
      → Call
      → Boundary L.State P
      → Result AuthorizationToken × Boundary L.State P
  check_and_authorize none m i c b = (raise (configuration_error Message.token_issuer_missing), b)
  check_and_authorize (some issuer) m i c b =
      let (outcome, b') = check F L m c b in
      elim outcome [
        | raise e ↦ (raise e, b')
        | ok u ↦ (ok (issue K issuer i.now i.token_id b'.agent_name c.tool_name c.operation), b')
      ]
