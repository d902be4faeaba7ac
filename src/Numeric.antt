-- ===== src/Numeric.antt =====
-- src/toolboundary/boundary.py, `_as_finite_number`, and the Python floats that it returns. The
-- conversions that round or parse are CPython's, and are a parameter.
pub mod Laws
use toolboundary.Common.{
  ℕ, ◌+◌, ◌%◌, ◌^◌, String, Bool, true, false, not, Option, none, some, List, eqb, if◌then◌else◌,
}
use toolboundary.Common.Int.{ℤ, pos, negsuc, pos_part, neg_part, ltb_ℤ, scale}
use toolboundary.Common.Text.{codes, strip}

-- A double. `finite z` is the number z * 2 ^ -1074: every finite double is such a multiple, so
-- that comparing doubles is comparing integers.
pub data Float : Type 0 where
  finite : ℤ → Float
  inf neg_inf nan : Float

-- the integer 1, as such a multiple
pub unit : ℕ
unit = 2 ^ 1074

abbrev pub float_zero : Float
float_zero = finite (pos 0)

-- `x < y`: a comparison with a NaN is false
unfoldable pub lt : Float → Float → Bool
lt (finite a) (finite b) = ltb_ℤ a b
lt (finite a) inf = true
lt neg_inf (finite b) = true
lt neg_inf inf = true
lt _ _ = false

-- `x > m` for an integer m, which Python compares exactly
unfoldable pub above_int : Float → ℤ → Bool
above_int x m = lt (finite (scale unit m)) x

unfoldable pub is_finite : Float → Bool
is_finite (finite z) = true
is_finite _ = false

-- `x.is_integer()`
unfoldable pub is_integer : Float → Bool
is_integer (finite z) = eqb ((pos_part z + neg_part z) % unit) 0
is_integer _ = false

-- What a caller may pass as `value` or `record_count`: a `Decimal` is given by its text.
pub data RawValue : Type 0 where
  boolean : Bool → RawValue
  integer : ℤ → RawValue
  float : Float → RawValue
  decimal : String → RawValue
  text : String → RawValue
  other : String → RawValue

-- CPython's `float(x)`; `none` is a ValueError or an OverflowError
pub record FloatParsing : Type 0 where
  pub of_integer : ℤ → Option Float
  pub of_decimal : String → Option Float
  pub of_text : List ℕ → Option Float

-- `number if math.isfinite(number) else None`, where the conversion did not raise
keep_finite : Option Float → Option Float
keep_finite none = none
keep_finite (some x) = if is_finite x then some x else none

unfoldable pub as_finite_number : FloatParsing → RawValue → Option Float
unfolding keep_finite is_finite
as_finite_number p (boolean b) = none
as_finite_number p (integer n) = keep_finite (p.of_integer n)
as_finite_number p (float x) = keep_finite (some x)
as_finite_number p (decimal d) = keep_finite (p.of_decimal d)
as_finite_number p (text s) = keep_finite (p.of_text (strip (codes s)))
as_finite_number p (other type_name) = none
