-- ===== src/Common/Names.antt =====
-- Membership in a set of names and equality of texts, as statements.
use Prim.Native.String.{String}
use mathlib.Core.Path.{◌≡◌, refl}
use mathlib.Core.Logic.{◌⊎◌}
use mathlib.Core.Bool.{Bool, true, false}
use mathlib.Core.List.{List, [], ◌∷◌}
use native.Mathlib.Omega.{arith}
use text.Mathlib.TextEquality.{eq_iff}
use Prim.Native.Nat.{ℕ}
use toolboundary.Common.Text.{member, same_codes}

-- the name is one of the list
abbrev pub In : String → List String → Type 0
In x [] = ⊥
In x (y ∷ names) = (y ≡ x) ⊎ In x names

pub member-In : (x : String) (names : List String) → member x names ≡ true → In x names
unfolding member
member-In x [] h = cc
member-In x (y ∷ names) h = ground (arith, eq_iff y x, member-In x names)

pub In-member : (x : String) (names : List String) → In x names → member x names ≡ true
unfolding member
In-member x [] h = absurd h
In-member x (y ∷ names) h = ground (arith, eq_iff y x, In-member x names)

pub member-not_In : (x : String) (names : List String) → member x names ≡ false → ¬ (In x names)
member-not_In x names h i = cc (In-member x names i)

pub not_In-member : (x : String) (names : List String) → ¬ (In x names) → member x names ≡ false
not_In-member x names h = by_cases (member x names) refl
  where
    by_cases : (b : Bool) → member x names ≡ b → member x names ≡ false
    by_cases true e = absurd (h (member-In x names e))
    by_cases false e = e

pub same_codes-eq : (a b : List ℕ) → same_codes a b ≡ true → a ≡ b
unfolding same_codes
same_codes-eq [] [] h = refl
same_codes-eq [] (y ∷ b) h = cc
same_codes-eq (x ∷ a) [] h = cc
same_codes-eq (x ∷ a) (y ∷ b) h = ground (arith, same_codes-eq a b)

pub same_codes_refl : (a : List ℕ) → same_codes a a ≡ true
unfolding same_codes
same_codes_refl [] = refl
same_codes_refl (x ∷ a) = ground (arith, same_codes_refl a)
