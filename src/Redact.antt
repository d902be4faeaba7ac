-- ===== src/Redact.antt =====
-- src/toolboundary/_redact.py: call arguments as the audit metadata shows them.
pub mod Hiding
use Prim.Native.String.{◌++◌}
use toolboundary.Common.{
  ℕ, zero, suc, ◌-◌, ◌+◌, String, Bool, true, false, not, ◌&&◌, ◌||◌, Option, none, some, List, [],
  ◌∷◌, leb, eqb, if◌then◌else◌,
}
use toolboundary.Common.Dict.{Dict}
use toolboundary.Common.Text.{codes, member}
use toolboundary.Provider.{Attempt, returns, raises}

-- a Python value, as far as `redact_args` looks at it
pub record Shown : Type 0 where
  pub type_name : String
  pub repr : Attempt String

-- what `re.IGNORECASE` identifies with an ASCII letter: its capital, the dotted and the dotless
-- i, the long s and the Kelvin sign
unfoldable pub fold_case : ℕ → ℕ
fold_case c =
    if leb b'A' c && leb c b'Z'
    then c + 32
    else if eqb c 0x130 || eqb c 0x131
    then b'i'
    else if eqb c 0x17f
    then b's'
    else if eqb c 0x212a
    then b'k'
    else c

-- a letter of the pattern, or its `[_-]?`
pub data Atom : Type 0 where
  letter : ℕ → Atom
  maybe_dash : Atom

abbrev pub letters : String → List Atom
letters String.[] = []
letters (String.◌∷◌ c s) = letter (Prim.Native.Char.code c) ∷ letters s

-- two words with `[_-]?` between them
abbrev pub dashed : List Atom → List Atom → List Atom
dashed [] after = maybe_dash ∷ after
dashed (a ∷ before) after = a ∷ dashed before after

-- the alternatives of `_SENSITIVE`; one that is found has the same for `pass(word)?` and `pass`
abbrev pub patterns : List (List Atom)
patterns =
    letters "pass"
    ∷ letters "secret"
    ∷ letters "token"
    ∷ dashed (letters "api") (letters "key")
    ∷ letters "authorization"
    ∷ letters "credential"
    ∷ dashed (letters "private") (letters "key")
    ∷ letters "cookie"
    ∷ letters "session"
    ∷ []

-- a match at the start of the text
unfoldable pub matches : List Atom → List ℕ → Bool
unfolding fold_case
matches [] s = true
matches (letter a ∷ p) [] = false
matches (letter a ∷ p) (c ∷ s) = eqb a (fold_case c) && matches p s
matches (maybe_dash ∷ p) [] = matches p []
matches (maybe_dash ∷ p) (c ∷ s) = ((eqb c b'_' || eqb c b'-') && matches p s) || matches p (c ∷ s)

unfoldable pub matches_any : List (List Atom) → List ℕ → Bool
unfolding matches
matches_any [] s = false
matches_any (p ∷ ps) s = matches p s || matches_any ps s

-- `_SENSITIVE.search(name)`
unfoldable pub search_sensitive : List ℕ → Bool
unfolding matches_any
search_sensitive [] = matches_any patterns []
search_sensitive (c ∷ s) = matches_any patterns (c ∷ s) || search_sensitive s

unfoldable pub is_sensitive : String → Bool
unfolding search_sensitive
is_sensitive name = search_sensitive (codes name)

-- the text, or its first `max_len` characters with the remark
unfoldable pub truncated : ℕ → String → Option String
truncated n String.[] = none
truncated zero (String.◌∷◌ c s) = some "...(truncated)"
truncated (suc n) (String.◌∷◌ c s) = elim (truncated n s) [
  | none ↦ none
  | some t ↦ some (String.◌∷◌ c t)
]

unfoldable pub shorten : ℕ → String → String
unfolding truncated
shorten max_len s = elim (truncated max_len s) [ none ↦ s | some t ↦ t ]

-- one value of the returned dict
unfoldable pub redact_arg : List String → ℕ → Bool → String → Shown → String
unfolding is_sensitive shorten
redact_arg extra_names max_len log_values name v =
    if member name extra_names || is_sensitive name
    then "<redacted>"
    else if not log_values
    then "<" ++ v.type_name ++ ">"
    else shorten max_len (elim v.repr [ returns s ↦ s | raises exc ↦ "<unrepresentable>" ])

-- the arguments are a dict, in which each name is there once, so that each `redacted[name] = …`
-- is a new entry
unfoldable pub redact_args : List String → ℕ → Bool → Dict Shown → Dict String
unfolding redact_arg
redact_args extra_names max_len log_values [] = []
redact_args extra_names max_len log_values ((name, v) ∷ arguments) =
    (name, redact_arg extra_names max_len log_values name v)
    ∷ redact_args extra_names max_len log_values arguments
