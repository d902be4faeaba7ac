-- ===== src/Tokens/Wire.antt =====
-- The wire form of a token gives the token back.
use toolboundary.Common.{ℕ, ◌≡◌, ◌≢◌, refl, none, some, List, [], ◌∷◌, ◌++◌, arith, All}
use toolboundary.Tokens.{
  AuthorizationToken, Crypto, CryptoLaws, ok, dot, rsplit_dot, token_of, to_wire, from_wire,
}

abbrev pub HasNoDot : List ℕ → Type 0
HasNoDot = All (λ c. c ≢ dot)

-- no dot, no split
rsplit_dot-none : (s : List ℕ) → HasNoDot s → rsplit_dot s ≡ none
unfolding rsplit_dot
rsplit_dot-none [] h = refl
rsplit_dot-none (c ∷ s) h = ground (arith, rsplit_dot-none s h.1)

-- the last dot is the one in front of a text that has none
pub rsplit_dot-append :
    (encoded signature : List ℕ)
    → HasNoDot signature
    → rsplit_dot (encoded ++ dot ∷ signature) ≡ some (encoded, signature)
unfolding rsplit_dot
rsplit_dot-append [] signature h = ground (arith, rsplit_dot-none signature h)
rsplit_dot-append (c ∷ encoded) signature h = rw (rsplit_dot-append encoded signature h)

-- With codecs that decode what they encode, a token whose signature holds no dot is read back from
-- its wire form unchanged.
pub from_wire-to_wire :
    (K : Crypto) (laws : CryptoLaws K) (t : AuthorizationToken)
    → HasNoDot t.signature
    → from_wire K (to_wire K t) ≡ ok t
unfolding to_wire from_wire token_of
from_wire-to_wire K laws t h =
    rw (
      rsplit_dot-append (K.encode t.payload) t.signature h,
      laws.decode-encode t.payload,
      from_wire,
    )
