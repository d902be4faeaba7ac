-- ===== src/Redis/Key.antt =====
-- The names that src/toolboundary/redis_backend.py gives to keys and members.
use Prim.Native.String.{String, ◌++◌}
use toolboundary.Common.{◌≡◌, false, inl, inr, Bool-cases, ◌==◌, eq_iff, All, eqb, ◌||◌}
use toolboundary.Common.Text.{codes}
use text.Mathlib.TextLemmas.{append_cancel_left}

-- f"{self._key_prefix}{key}"
unfoldable pub redis_key : String → String → String
redis_key prefix key = prefix ++ key

-- f"{now:.6f}:{secrets.token_hex(4)}", of the two texts
unfoldable pub member_text : String → String → String
member_text time hex = time ++ ":" ++ hex

-- f"{self._key_prefix}*"
unfoldable pub pattern : String → String
pattern prefix = prefix ++ "*"

-- no character of the text is special in a pattern of Redis: * ? [ or a backslash
abbrev pub IsPlain : String → Type 0
IsPlain p = All (λ c. eqb c b'*' || eqb c b'?' || eqb c b'[' || eqb c 92 ≡ false) (codes p)

pub redis_key-injective : (p k j : String) → redis_key p k ≡ redis_key p j → k ≡ j
unfolding redis_key
redis_key-injective p k j h = append_cancel_left p k j h

-- two keys are told apart by their names on the server
pub redis_key-other : (p k j : String) → (k == j) ≡ false → (redis_key p k == redis_key p j) ≡ false
redis_key-other p k j h = elim (Bool-cases (redis_key p k == redis_key p j)) [
  | inr other ↦ other
  | inl same ↦ absurd (
      cc (
        h,
        (eq_iff k j).1
            (redis_key-injective p k j ((eq_iff (redis_key p k) (redis_key p j)).0 same)),
      ))
]
