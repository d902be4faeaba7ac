-- ===== src/Tests/Codec.antt =====
-- A codec of payloads that decodes what it encodes: numbers stand for themselves, and a text is
-- its code points, each plus one, closed by a zero.
use Prim.Native.Char.{Char, char, code, IsLt, IsScalar}
use Prim.Native.Nat.{compare, Ordering}
use text.Mathlib.TextEquality.{Char-path}
use toolboundary.Common.{ℕ, zero, suc, ◌≡◌, refl, ap, String, Option, none, some, List, [], ◌∷◌}
use toolboundary.Tokens.{Payload, Loaded, fields, loaded}

abbrev reach : (q : Ordering) → Option (IsLt q)
reach Ordering.lt = some tt
reach Ordering.eq = none
reach Ordering.gt = none

abbrev Both : Ordering → Ordering → Type 0
Both Ordering.lt q = IsLt q
Both Ordering.eq q = ⊥
Both Ordering.gt q = ⊥

abbrev both : (p q : Ordering) → Option (Both p q)
both Ordering.lt q = reach q
both Ordering.eq q = none
both Ordering.gt q = none

abbrev Scalar : Ordering → Ordering → Ordering → Type 0
Scalar Ordering.lt p q = Unit
Scalar Ordering.eq p q = Both p q
Scalar Ordering.gt p q = Both p q

abbrev scalar : (o p q : Ordering) → Option (Scalar o p q)
scalar Ordering.lt p q = some tt
scalar Ordering.eq p q = both p q
scalar Ordering.gt p q = both p q

scalar-found : (o p q : Ordering) → Scalar o p q → (s : Scalar o p q) × (scalar o p q ≡ some s)
scalar-found Ordering.lt p q s = (tt, refl)
scalar-found Ordering.eq Ordering.lt Ordering.lt s = (tt, refl)
scalar-found Ordering.gt Ordering.lt Ordering.lt s = (tt, refl)
scalar-found Ordering.eq Ordering.lt Ordering.eq s = absurd s
scalar-found Ordering.eq Ordering.lt Ordering.gt s = absurd s
scalar-found Ordering.eq Ordering.eq q s = absurd s
scalar-found Ordering.eq Ordering.gt q s = absurd s
scalar-found Ordering.gt Ordering.lt Ordering.eq s = absurd s
scalar-found Ordering.gt Ordering.lt Ordering.gt s = absurd s
scalar-found Ordering.gt Ordering.eq q s = absurd s
scalar-found Ordering.gt Ordering.gt q s = absurd s

is_scalar : (n : ℕ) → Option (IsScalar n)
is_scalar n = scalar (compare n 55296) (compare 57343 n) (compare n 1114112)

-- the character of a number
char_of : ℕ → Option Char
unfolding is_scalar
char_of n = elim (is_scalar n) [ none ↦ none | some s ↦ some (char n s) ]

char_of-code : (c : Char) → char_of (code c) ≡ some c
unfolding char_of is_scalar
char_of-code (char n s) =
    let found = scalar-found (compare n 55296) (compare 57343 n) (compare n 1114112) s in
    rw (found.1, char_of, is_scalar) (ap some (Char-path (char n found.0) (char n s) refl))

write_text : String → List ℕ → List ℕ
write_text String.[] rest = 0 ∷ rest
write_text (String.◌∷◌ c s) rest = suc (code c) ∷ write_text s rest

read_text : List ℕ → Option (String × List ℕ)
unfolding char_of
read_text [] = none
read_text (zero ∷ rest) = some (String.[], rest)
read_text (suc n ∷ rest) =
    let more = read_text rest in
    elim (char_of n) [
      | none ↦ none
      | some c ↦ elim more [ none ↦ none | some (s, after) ↦ some (String.◌∷◌ c s, after) ]
    ]

read_text-write_text : (s : String) (rest : List ℕ) → read_text (write_text s rest) ≡ some (s, rest)
unfolding read_text write_text
read_text-write_text String.[] rest = refl
read_text-write_text (String.◌∷◌ c s) rest =
    rw (char_of-code c, read_text-write_text s rest, read_text, write_text)

write_optional : Option String → List ℕ → List ℕ
unfolding write_text
write_optional none rest = 0 ∷ rest
write_optional (some s) rest = 1 ∷ write_text s rest

read_optional : List ℕ → Option (Option String × List ℕ)
unfolding read_text
read_optional [] = none
read_optional (zero ∷ rest) = some (none, rest)
read_optional (suc n ∷ rest) = elim (read_text rest) [
  | none ↦ none
  | some (s, after) ↦ some (some s, after)
]

read_optional-write_optional :
    (o : Option String) (rest : List ℕ) → read_optional (write_optional o rest) ≡ some (o, rest)
unfolding read_optional write_optional
read_optional-write_optional none rest = refl
read_optional-write_optional (some s) rest =
    rw (read_text-write_text s rest, read_optional, write_optional)

unfoldable pub encode : Payload → List ℕ
unfolding write_optional
encode p = write_text p.token_id (
    write_text p.agent_name
      (write_text p.tool_name (write_optional p.operation (p.issued_at ∷ p.expires_at ∷ []))))

-- the two times that close a payload
read_times : String → String → String → Option String → List ℕ → Option Loaded
read_times i a t o (from ∷ to ∷ []) =
    some (fields (some i) (some a) (some t) o (some from) (some to))
read_times i a t o _ = none

unfoldable pub decode : List ℕ → Option Loaded
unfolding read_text read_optional read_times
decode s = elim (read_text s) [
  | none ↦ none
  | some (i, s1) ↦ elim (read_text s1) [
    | none ↦ none
    | some (a, s2) ↦ elim (read_text s2) [
      | none ↦ none
      | some (t, s3) ↦ elim (read_optional s3) [
        | none ↦ none
        | some (o, s4) ↦ read_times i a t o s4
      ]
    ]
  ]
]

pub decode-encode : (p : Payload) → decode (encode p) ≡ some (loaded p)
unfolding decode encode read_times
decode-encode p = rw (
  read_text-write_text p.token_id,
  read_text-write_text p.agent_name,
  read_text-write_text p.tool_name,
  read_optional-write_optional p.operation,
  decode,
  encode,
  read_times,
)
