-- ===== src/Range.antt =====
-- range.h and range.cxx: Mod, the orderings and Range, on the floats.
pub mod Bounds
pub mod Remainder
pub mod Random
pub mod Tests
use ren_general.Base.{ℕ, suc, ◌+◌, ◌-◌, ◌%◌, ◌^◌, Bool, true, false, ◌&&◌, if◌then◌else◌}
use ren_general.Scalar
use ren_general.Scalar.{Scalar, ltb, min, max}
use ren_general.Scalar.Exact.{ℤ, pos, negsuc, pos_part, neg_part, sub_ℕ}

-- `%` on int, whose sign is that of its left side.
abbrev pub rem : ℤ → ℤ → ℤ
rem a b = sub_ℕ (pos_part a % (pos_part b + neg_part b)) (neg_part a % (pos_part b + neg_part b))

-- An int as an unsigned int.
abbrev pub to_unsigned : ℤ → ℕ
to_unsigned (pos n) = n % 2 ^ 32
to_unsigned (negsuc n) = 2 ^ 32 - suc n

abbrev pub is_negative : ℤ → Bool
is_negative (pos n) = false
is_negative (negsuc n) = true

abbrev pub add_ℤ : ℤ → ℤ → ℤ
add_ℤ a b = sub_ℕ (pos_part a + pos_part b) (neg_part a + neg_part b)

-- Mod.
unfoldable pub mod_int : ℤ → ℤ → ℕ
mod_int input size =
    let intermediate = rem input size in
    to_unsigned (if is_negative intermediate then add_ℤ intermediate size else intermediate)

module _ (s : Scalar) where
  -- OrderF.
  unfoldable pub order : s.F → s.F → s.F × s.F
  order low high = if s.leb low high then (low, high) else (high, low)

  pub record Range : Type 0 where
    pub min : s.F
    pub max : s.F

  unfoldable pub new : s.F → s.F → Range
  new new_min new_max = record {
    min = Scalar.min s new_min new_max;
    max = Scalar.max s new_min new_max;
  }

  unfoldable pub span_set : (fabs : s.F → s.F) → Range → s.F → s.F → Range
  span_set fabs r start width = record { min = start; max = s.add start (fabs width) }

  unfoldable pub include : Range → s.F → Range
  include r value = record { min = Scalar.min s r.min value; max = Scalar.max s r.max value }

  unfoldable pub including : Range → s.F → Range
  unfolding new
  including r value = new (Scalar.min s r.min value) (Scalar.max s r.max value)

  unfoldable pub expand : Range → s.F → Range
  unfolding new
  expand r amount =
      new (Scalar.min s r.min (s.add r.min amount)) (Scalar.max s r.max (s.add r.max amount))

  unfoldable pub contract : Range → s.F → Range
  contract r amount =
      let low = Scalar.min s (Scalar.max s r.min (s.add r.min amount)) r.max in
      record { min = low; max = Scalar.max s (Scalar.min s r.max (s.add r.max amount)) low }

  unfoldable pub length : Range → s.F
  length r = s.sub r.max r.min

  unfoldable pub center : Range → s.F
  center r = s.div (s.add r.max r.min) (s.ratio 2 1)

  unfoldable pub percent : Range → s.F → s.F
  percent r marker = s.div (s.sub marker r.min) (s.sub r.max r.min)

  unfoldable pub at_percent : Range → s.F → s.F
  at_percent r percentage = s.add (s.mul percentage (s.sub r.max r.min)) r.min

  unfoldable pub contains : Range → s.F → Bool
  contains r operand = s.leb r.min operand && s.leb operand r.max

  unfoldable pub contains_range : Range → Range → Bool
  contains_range r o = s.leb r.min o.min && s.leb o.max r.max

  unfoldable pub intersects : Range → Range → Bool
  intersects r o = ltb s r.min o.max && s.leb o.min r.max

  unfoldable pub shared : Range → Range → s.F
  shared r o = s.sub (Scalar.min s r.max o.max) (Scalar.max s r.min o.min)

  unfoldable pub space_difference : Range → Range → s.F
  space_difference r o = if ltb s o.max r.min then s.sub o.max r.min else s.sub o.min r.max

  unfoldable pub lower_unshared : Range → Range → s.F
  lower_unshared r o = s.sub o.min r.min

  unfoldable pub upper_unshared : Range → Range → s.F
  upper_unshared r o = s.sub r.max o.max

  unfoldable pub constrain : Range → s.F → s.F
  constrain r operand = Scalar.max s (Scalar.min s operand r.max) r.min

  unfoldable pub wrap : Range → s.F → s.F
  wrap r operand =
      let out = if ltb s operand r.min then s.add operand (s.sub r.max r.min) else operand in
      if ltb s r.max out then s.sub out (s.sub r.max r.min) else out

-- Mix.
unfoldable pub mix : (s : Scalar) → (start end percentage : s.F) → s.F
mix s start end percentage =
    s.add (s.mul (s.sub end start) (min s (max s (s.ratio 0 1) percentage) (s.ratio 1 1))) start
