-- ===== src/Numeric/Laws.antt =====
-- What a number that passed `_as_finite_number` is, and what its comparisons say.
use toolboundary.Common.{◌≡◌, false, Option, none, some, arith}
use toolboundary.Common.Int.{ℤ, ◌≤ℤ◌}
use toolboundary.Numeric.{
  Float, finite, inf, neg_inf, nan, lt, is_finite, keep_finite, RawValue, boolean, integer, float,
  decimal, text, other, FloatParsing, as_finite_number,
}

-- It is a finite double.
keep_finite-finite :
    (o : Option Float) (x : Float) → keep_finite o ≡ some x → (z : ℤ) × (x ≡ finite z)
unfolding keep_finite is_finite
keep_finite-finite none x h = cc
keep_finite-finite (some (finite z)) x h = (z, cc)
keep_finite-finite (some inf) x h = cc
keep_finite-finite (some neg_inf) x h = cc
keep_finite-finite (some nan) x h = cc

pub as_finite_number-finite :
    (p : FloatParsing) (v : RawValue) (x : Float)
    → as_finite_number p v ≡ some x
    → (z : ℤ) × (x ≡ finite z)
unfolding as_finite_number
as_finite_number-finite p (boolean b) x h = cc
as_finite_number-finite p (integer n) x h = keep_finite-finite (p.of_integer n) x h
as_finite_number-finite p (float y) x h = keep_finite-finite (some y) x h
as_finite_number-finite p (decimal d) x h = keep_finite-finite (p.of_decimal d) x h
as_finite_number-finite p (text s) x h = keep_finite-finite _ x h
as_finite_number-finite p (other t) x h = cc

pub lt-finite : (a b : ℤ) → lt (finite a) (finite b) ≡ false → b ≤ℤ a
unfolding lt
lt-finite a b h = ground arith
