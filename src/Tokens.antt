-- ===== src/Tokens.antt =====
-- src/toolboundary/tokens.py: authorization tokens, their issuer and their wire form. A text that
-- the code takes apart is the list of its code points. HMAC-SHA256 over the JSON of a payload, and
-- base64 over that JSON, are parameters. Times are whole ticks of one clock.
pub mod Wire
pub mod Issuer
pub mod Store
pub mod Threads
use toolboundary.Common.{
  ℕ, ◌+◌, ◌≡◌, String, Bool, true, false, not, ◌&&◌, Option, none, some, List, [], ◌∷◌, ◌++◌, ltb,
  All, eqb, ◌==◌, ◌<◌, ◌⊎◌, inl, inr, refl, if◌then◌else◌,
}
use toolboundary.Common.Text.{same_codes}

-- the dict that is signed and sent
pub record Payload : Type 0 where
  pub token_id : String
  pub agent_name : String
  pub tool_name : String
  pub operation : Option String
  pub issued_at : ℕ
  pub expires_at : ℕ

pub record AuthorizationToken : Type 0 where
  pub payload : Payload
  pub open payload use *
  pub signature : List ℕ

-- `json.loads` of what was sent: an object, whose fields may be missing, or another value
pub data Loaded : Type 0 where
  not_an_object : Loaded
  fields :
      Option String → Option String → Option String → Option String → Option ℕ → Option ℕ → Loaded

-- the object with all fields of a payload
abbrev pub loaded : Payload → Loaded
loaded p =
    fields (some p.token_id) (some p.agent_name) (some p.tool_name) p.operation (some p.issued_at)
      (some p.expires_at)

pub record Crypto : Type 0 where
  -- `hmac.new(secret, json.dumps(payload, …).encode(), sha256).hexdigest()`
  pub sign : String → Payload → List ℕ
  -- `base64.urlsafe_b64encode(json.dumps(payload, …).encode()).decode("ascii")`
  pub encode : Payload → List ℕ
  -- `json.loads(base64.urlsafe_b64decode(encoded.encode("ascii")))`; `none` is an exception
  pub decode : List ℕ → Option Loaded

-- Hexadecimal digits and what is documented of the codecs: decoding gives back what was encoded.
abbrev pub IsHex : ℕ → Type 0
IsHex c = ((c < 58) × (47 < c)) ⊎ ((c < 103) × (96 < c))

pub record CryptoLaws (K : Crypto) : Type 0 where
  pub sign-hex : (secret : String) (p : Payload) → All IsHex (K.sign secret p)
  pub decode-encode : (p : Payload) → K.decode (K.encode p) ≡ some (loaded p)

-- TokenInvalid, TokenExpired, or the TypeError of `hmac.compare_digest`
pub data Failure : Type 0 where
  malformed wrong_signature wrong_agent wrong_tool wrong_operation : Failure
  expired : Failure
  type_error : Failure
  key_error : Failure

pub data Checked {ℓ} (A : Type ℓ) : Type ℓ where
  ok : A → Checked A
  fail : Failure → Checked A

pub Checked-cases {ℓ} :
    {A : Type ℓ} (c : Checked A) → ((a : A) × (c ≡ ok a)) ⊎ ((f : Failure) × (c ≡ fail f))
Checked-cases (ok a) = inl (a, refl)
Checked-cases (fail f) = inr (f, refl)

-- "."
abbrev pub dot : ℕ
dot = 46

-- `wire.rsplit(".", 1)`, where it gives two parts
unfoldable pub rsplit_dot : List ℕ → Option (List ℕ × List ℕ)
rsplit_dot [] = none
rsplit_dot (c ∷ s) = elim (rsplit_dot s) [
  | some (before, after) ↦ some (c ∷ before, after)
  | none ↦ if eqb c dot then some ([], s) else none
]

-- the fields by subscript: a missing one is a KeyError, the operation may be missing
unfoldable pub token_of : Loaded → List ℕ → Checked AuthorizationToken
token_of (fields (some i) (some a) (some t) o (some from) (some to)) signature = ok (record {
  payload = record {
    token_id = i;
    agent_name = a;
    tool_name = t;
    operation = o;
    issued_at = from;
    expires_at = to;
  };
  signature = signature;
})
token_of _ signature = fail key_error

-- `hmac.compare_digest` of two str: it raises a TypeError unless both are ASCII
unfoldable pub is_ascii : List ℕ → Bool
is_ascii [] = true
is_ascii (c ∷ s) = ltb c 128 && is_ascii s

unfoldable pub compare_digest : List ℕ → List ℕ → Checked Bool
unfolding is_ascii same_codes
compare_digest a b = if is_ascii a && is_ascii b then ok (same_codes a b) else fail type_error

-- an expectation that is None, or met
abbrev pub meets : Option String → String → Bool
meets none actual = true
meets (some expected) actual = expected == actual

-- the same for the operation, which may itself be None
abbrev pub meets_operation : Option String → Option String → Bool
meets_operation none actual = true
meets_operation (some expected) none = false
meets_operation (some expected) (some actual) = expected == actual

pub record Expected : Type 0 where
  pub agent_name : Option String
  pub tool_name : Option String
  pub operation : Option String

-- the tests of `verify` behind the one of the signature
unfoldable pub verify_claims : ℕ → AuthorizationToken → Expected → Checked (Unit {0})
verify_claims now t expect =
    if ltb t.expires_at now
    then fail expired
    else if not (meets expect.agent_name t.agent_name)
    then fail wrong_agent
    else if not (meets expect.tool_name t.tool_name)
    then fail wrong_tool
    else if not (meets_operation expect.operation t.operation)
    then fail wrong_operation
    else ok tt

pub record TokenIssuer : Type 0 where
  pub secret : String
  pub ttl_seconds : ℕ

module _ (K : Crypto) where
  unfoldable pub to_wire : AuthorizationToken → List ℕ
  to_wire t = K.encode t.payload ++ dot ∷ t.signature

  unfoldable pub from_wire : List ℕ → Checked AuthorizationToken
  unfolding rsplit_dot token_of
  from_wire wire = elim (rsplit_dot wire) [
    | none ↦ fail malformed
    | some (encoded, signature) ↦ elim (K.decode encoded) [
      | none ↦ fail malformed
      | some payload ↦ token_of payload signature
    ]
  ]

  -- `now` is `time.time()` and `token_id` the random id
  unfoldable pub issue :
      TokenIssuer → ℕ → String → String → String → Option String → AuthorizationToken
  issue issuer now token_id agent_name tool_name operation =
      let payload : Payload = record {
        token_id = token_id;
        agent_name = agent_name;
        tool_name = tool_name;
        operation = operation;
        issued_at = now;
        expires_at = now + issuer.ttl_seconds;
      } in
      record { payload = payload; signature = K.sign issuer.secret payload }

  unfoldable pub verify : TokenIssuer → ℕ → AuthorizationToken → Expected → Checked (Unit {0})
  unfolding compare_digest verify_claims
  verify issuer now t expect = elim (compare_digest (K.sign issuer.secret t.payload) t.signature) [
    | fail f ↦ fail f
    | ok false ↦ fail wrong_signature
    | ok true ↦ verify_claims now t expect
  ]
