-- ===== src/Common/Order.antt =====
-- The order of texts, by their code points, which `sorted` and `sort_keys` use.
use Prim.Native.Nat.{ℕ, Ordering}
use Prim.Native.Char.{code}
use Prim.Native.String.{String, then as and_then, compare as compare_texts}
use Prim.Native.String.compare
use mathlib.Core.Path.{◌≡◌, refl, ap}
use mathlib.Core.Logic.{◌⊎◌, inl, inr}
use mathlib.Core.Bool.{Bool, true, false}
use mathlib.Core.List.{List, [], ◌∷◌}
use native.Mathlib.Omega.{arith}
use package.text.Mathlib.Text.{is_le}
use package.text.Mathlib.TextEquality.{codes_equal}
use toolboundary.Common.Tests.{ltb, eqb, if◌then◌else◌}
use toolboundary.Common.Text.{codes}

-- lexicographic order
abbrev leq : List ℕ → List ℕ → Bool
leq [] t = true
leq (a ∷ s) [] = false
leq (a ∷ s) (b ∷ t) = if ltb a b then true else if eqb a b then leq s t else false

leq-total : (s t : List ℕ) → (leq s t ≡ true) ⊎ (leq t s ≡ true)
leq-total [] t = inl refl
leq-total (a ∷ s) [] = inr refl
leq-total (a ∷ s) (b ∷ t) = ground (arith, leq-total s t)

leq_trans : (s t u : List ℕ) → leq s t ≡ true → leq t u ≡ true → leq s u ≡ true
leq_trans [] t u h k = refl
leq_trans (a ∷ s) [] u h k = cc
leq_trans (a ∷ s) (b ∷ t) [] h k = cc
leq_trans (a ∷ s) (b ∷ t) (c ∷ u) h k = ground (arith, leq_trans s t u)

leq_antisym : (s t : List ℕ) → leq s t ≡ true → leq t s ≡ true → s ≡ t
leq_antisym [] [] h k = refl
leq_antisym [] (b ∷ t) h k = cc
leq_antisym (a ∷ s) [] h k = cc
leq_antisym (a ∷ s) (b ∷ t) h k = ground (arith, leq_antisym s t)

-- the order of two texts
abbrev pub le : String → String → Bool
le s t = is_le (compare_texts s t)

then-le :
    (o r : Ordering) (b : Bool)
    → is_le r ≡ b
    → is_le (and_then o r) ≡ (
        if elim o as (λ _. Bool) [ Ordering.lt ↦ true | _ ↦ false ]
        then true
        else if elim o as (λ _. Bool) [ Ordering.eq ↦ true | _ ↦ false ]
        then b
        else false)
then-le Ordering.lt r b h = refl
then-le Ordering.eq r b h = h
then-le Ordering.gt r b h = refl

le-leq : (s t : String) → le s t ≡ leq (codes s) (codes t)
le-leq String.[] String.[] = ap is_le compare.nil-nil
le-leq String.[] (String.◌∷◌ d t) = ap is_le (compare.nil-cons d t)
le-leq (String.◌∷◌ c s) String.[] = ap is_le (compare.cons-nil c s)
le-leq (String.◌∷◌ c s) (String.◌∷◌ d t) =
    rw (compare.cons-cons c d s t) (then-le _ (compare_texts s t) _ (le-leq s t))

codes-injective : (s t : String) → codes s ≡ codes t → s ≡ t
codes-injective String.[] String.[] h = refl
codes-injective String.[] (String.◌∷◌ d t) h = absurd (cc h)
codes-injective (String.◌∷◌ c s) String.[] h = absurd (cc h)
codes-injective (String.◌∷◌ c s) (String.◌∷◌ d t) h =
    let same : code c ≡ code d = cc h in
    let rest : codes s ≡ codes t = cc h in
    λ i. String.◌∷◌ (codes_equal c d (ground (arith, same)) i) (codes-injective s t rest i)

pub le-total : (s t : String) → (le s t ≡ true) ⊎ (le t s ≡ true)
le-total s t = elim (leq-total (codes s) (codes t)) [
  | inl h ↦ inl (cc (h, le-leq s t))
  | inr h ↦ inr (cc (h, le-leq t s))
]

pub le_trans : (s t u : String) → le s t ≡ true → le t u ≡ true → le s u ≡ true
le_trans s t u h k =
    let passed =
      leq_trans (codes s) (codes t) (codes u) (cc (h, le-leq s t)) (cc (k, le-leq t u)) in
    cc (passed, le-leq s u)

pub le_antisym : (s t : String) → le s t ≡ true → le t s ≡ true → s ≡ t
le_antisym s t h k =
    codes-injective s t (leq_antisym (codes s) (codes t) (cc (h, le-leq s t)) (cc (k, le-leq t s)))
