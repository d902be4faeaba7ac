-- ===== src/Common/Text.antt =====
-- Texts: membership in a set of names, and the code points of a text.
use Prim.Native.Nat.{ℕ, ◌+◌}
use Prim.Native.Char.{code}
use Prim.Native.String.{String}
use mathlib.Core.Bool.{Bool, true, false, ◌&&◌, ◌||◌}
use mathlib.Core.List.{List, [], ◌∷◌}
use text.Mathlib.Text.{◌==◌}
use toolboundary.Common.Tests.{leb, eqb, if◌then◌else◌}

-- `x in names`, for a `frozenset[str]`
unfoldable pub member : String → List String → Bool
member x [] = false
member x (y ∷ names) = if y == x then true else member x names

abbrev pub codes : String → List ℕ
codes String.[] = []
codes (String.◌∷◌ c s) = code c ∷ codes s

-- `str.isspace` of one character, which is what `str.strip` removes
is_space : ℕ → Bool
is_space c =
    (leb 9 c && leb c 13)
    || (leb 28 c && leb c 32)
    || eqb c 0x85
    || eqb c 0xa0
    || eqb c 0x1680
    || (leb 0x2000 c && leb c 0x200a)
    || eqb c 0x2028
    || eqb c 0x2029
    || eqb c 0x202f
    || eqb c 0x205f
    || eqb c 0x3000

trim_left : List ℕ → List ℕ
trim_left [] = []
trim_left (c ∷ s) = if is_space c then trim_left s else c ∷ s

snoc_reverse : List ℕ → List ℕ → List ℕ
snoc_reverse [] out = out
snoc_reverse (c ∷ s) out = snoc_reverse s (c ∷ out)

-- `s.strip()`
unfoldable pub strip : List ℕ → List ℕ
unfolding is_space trim_left snoc_reverse
strip s = snoc_reverse (trim_left (snoc_reverse (trim_left s) [])) []

-- `s.lower()` on the ASCII letters, the only ones that can become an ASCII letter of the names
-- that the program compares with
unfoldable pub lower : List ℕ → List ℕ
lower [] = []
lower (c ∷ s) = (if leb b'A' c && leb c b'Z' then c + 32 else c) ∷ lower s

-- equality of two texts by their code points
unfoldable pub same_codes : List ℕ → List ℕ → Bool
same_codes [] [] = true
same_codes (a ∷ s) (b ∷ t) = eqb a b && same_codes s t
same_codes _ _ = false
