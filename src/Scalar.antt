-- ===== src/Scalar.antt =====
-- The C++ type float, which the program computes with and does not implement: a type with its
-- operations and tests, a parameter of every module that uses it. The laws are named records, for
-- the values that the program keeps to (no NaN).
pub mod Exact
use ren_general.Base.{ℕ, ◌≡◌, Bool, true, false, not, if◌then◌else◌}

pub record Scalar : Type 1 where
  pub F : Type 0
  pub add : F → F → F
  pub sub : F → F → F
  pub mul : F → F → F
  pub div : F → F → F
  pub neg : F → F
  pub leb : F → F → Bool
  -- A numeral, as numerator and denominator: `ratio 1 2` is 0.5f.
  pub ratio : ℕ → ℕ → F

-- `<`, `==`, std::min and std::max on values that are not NaN.
abbrev pub ltb : (s : Scalar) → s.F → s.F → Bool
ltb s a b = not (s.leb b a)

abbrev pub eqb : (s : Scalar) → s.F → s.F → Bool
eqb s a b = if s.leb a b then s.leb b a else false

abbrev pub min : (s : Scalar) → s.F → s.F → s.F
min s a b = if ltb s b a then b else a

abbrev pub max : (s : Scalar) → s.F → s.F → s.F
max s a b = if ltb s a b then b else a

-- Numerals that the source writes.
abbrev pub zero : (s : Scalar) → s.F
zero s = s.ratio 0 1

abbrev pub one : (s : Scalar) → s.F
one s = s.ratio 1 1

-- The order of the values that are not NaN is total.
pub record Ordered (s : Scalar) : Type 0 where
  pub le_refl : (a : s.F) → s.leb a a ≡ true
  pub le_trans : (a b c : s.F) → s.leb a b ≡ true → s.leb b c ≡ true → s.leb a c ≡ true
  pub le_total : (a b : s.F) → s.leb a b ≡ false → s.leb b a ≡ true
