-- ===== src/Tokens/Issuer.antt =====
-- What `TokenIssuer.verify` accepts.
use toolboundary.Common.{
  ℕ, ◌≤◌, ◌≡◌, ◌↔◌, inl, inr, refl, sym, String, Bool, true, false, Option, none, some, List, [],
  ◌∷◌, arith, All, Bool-cases, eq_iff, ◌&&◌,
}
use toolboundary.Common.Text.{same_codes}
use toolboundary.Common.Names.{same_codes-eq, same_codes_refl}
use toolboundary.Tokens.{
  AuthorizationToken, Crypto, CryptoLaws, IsHex, wrong_signature, Checked, ok, fail, is_ascii,
  compare_digest, meets, meets_operation, Expected, verify_claims, TokenIssuer, verify,
}

hex-ascii : (s : List ℕ) → All IsHex s → is_ascii s ≡ true
unfolding is_ascii
hex-ascii [] h = refl
hex-ascii (c ∷ s) h = ground (arith, hex-ascii s h.1)

-- what an expectation of a name asks
abbrev pub Met : Option String → String → Type 0
Met expected actual = (s : String) → expected ≡ some s → actual ≡ s

meets_iff :
    (expected : Option String) (actual : String)
    → (meets expected actual ≡ true) ↔ Met expected actual
meets_iff none actual = (λ h s e. cc, λ m. refl)
meets_iff (some x) actual =
    (λ h s e. ground (arith, eq_iff x actual), λ m. ground (arith, eq_iff x actual, m x refl))

abbrev pub MetOperation : Option String → Option String → Type 0
MetOperation expected actual = (s : String) → expected ≡ some s → actual ≡ some s

meets_operation_iff :
    (expected actual : Option String)
    → (meets_operation expected actual ≡ true) ↔ MetOperation expected actual
meets_operation_iff none actual = (λ h s e. cc, λ m. refl)
meets_operation_iff (some x) none = (λ h s e. cc, λ m. cc (m x refl))
meets_operation_iff (some x) (some y) =
    (λ h s e. ground (arith, eq_iff x y), λ m. ground (arith, eq_iff x y, m x refl))

-- What a verified token is: signed with the issuer's secret, not past its expiry, and for the
-- expected agent, tool and operation.
pub record Authentic (K : Crypto) (issuer : TokenIssuer) (now : ℕ) (t : AuthorizationToken)
    (x : Expected) : Type 0 where
  pub signed : t.signature ≡ K.sign issuer.secret t.payload
  pub in_time : now ≤ t.expires_at
  pub agent : Met x.agent_name t.agent_name
  pub tool : Met x.tool_name t.tool_name
  pub operation : MetOperation x.operation t.operation

module _ (now : ℕ) (t : AuthorizationToken) (x : Expected) where
  abbrev Claims : Type 0
  Claims =
      (now ≤ t.expires_at)
      × Met x.agent_name t.agent_name
      × Met x.tool_name t.tool_name
      × MetOperation x.operation t.operation

  verify_claims_iff : (verify_claims now t x ≡ ok tt) ↔ Claims
  unfolding verify_claims
  verify_claims_iff = (
    λ h. (
      ground arith,
      (meets_iff x.agent_name t.agent_name).0 (ground arith),
      (meets_iff x.tool_name t.tool_name).0 (ground arith),
      (meets_operation_iff x.operation t.operation).0 (ground arith),
    ),
    λ (in_time, agent, tool, operation). ground (
      arith,
      (meets_iff x.agent_name t.agent_name).1 agent,
      (meets_iff x.tool_name t.tool_name).1 tool,
      (meets_operation_iff x.operation t.operation).1 operation,
    ),
  )

module _ (K : Crypto) (laws : CryptoLaws K) (issuer : TokenIssuer) where
  compare-signed :
      (t : AuthorizationToken)
      → t.signature ≡ K.sign issuer.secret t.payload
      → compare_digest (K.sign issuer.secret t.payload) t.signature ≡ ok true
  unfolding compare_digest
  compare-signed t h = rw h (
      rw (hex-ascii _ (laws.sign-hex issuer.secret t.payload))
        (rw (same_codes_refl (K.sign issuer.secret t.payload))))

  signed-compare :
      (s : List ℕ) (t : AuthorizationToken)
      → compare_digest s t.signature ≡ ok true
      → t.signature ≡ s
  unfolding compare_digest
  signed-compare s t h = elim (Bool-cases (is_ascii s && is_ascii t.signature)) [
    | inl ascii ↦ elim (Bool-cases (same_codes s t.signature)) [
      | inl same ↦ sym (same_codes-eq s t.signature same)
      | inr other ↦ ground arith
    ]
    | inr odd ↦ ground arith
  ]

  -- what the test of the signature and the tests behind it have said
  abbrev both : Checked Bool → Checked (Unit {0}) → Checked (Unit {0})
  both d r = elim d [ fail f ↦ fail f | ok false ↦ fail wrong_signature | ok true ↦ r ]

  split_checks :
      (d : Checked Bool) (r : Checked (Unit {0})) → both d r ≡ ok tt → (d ≡ ok true) × (r ≡ ok tt)
  split_checks (fail f) r h = absurd (cc h)
  split_checks (ok false) r h = absurd (cc h)
  split_checks (ok true) r h = (refl, h)

  -- Where signatures are made of hexadecimal digits, `verify` accepts a token exactly when it
  -- carries the signature of its payload under the issuer's secret, the clock is not past its
  -- expiry, and the expected agent, tool and operation, where given, are the token's.
  pub verify_iff :
      (now : ℕ) (t : AuthorizationToken) (x : Expected)
      → (verify K issuer now t x ≡ ok tt) ↔ Authentic K issuer now t x
  unfolding verify
  verify_iff now t x = (
    λ h.
        let checks =
          split_checks (compare_digest (K.sign issuer.secret t.payload) t.signature)
            (verify_claims now t x) h in
        let claims = (verify_claims_iff now t x).0 checks.1 in
        record {
          signed = signed-compare (K.sign issuer.secret t.payload) t checks.0;
          in_time = claims.0;
          agent = claims.1;
          tool = claims.2;
          operation = claims.3;
        },
    λ a.
        rw (compare-signed t a.signed, verify)
          ((verify_claims_iff now t x).1 (a.in_time, a.agent, a.tool, a.operation)),
  )
