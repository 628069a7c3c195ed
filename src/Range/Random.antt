-- ===== src/Range/Random.antt =====
-- range.h and range.cxx: random values, and OrderD. `rand` is the library's generator: its results
-- in order, of which the number drawn so far is handed on. Arguments are taken to be evaluated from
-- the left. The rejection loop runs on fuel.
pub mod Drawn
pub mod Tests
use ren_general.Base.{ℕ, zero, suc, ◌+◌, ◌%◌, ◌^◌, Bool, true, false, not, ◌==◌, leb, if◌then◌else◌}
use ren_general.Exception.{Result, ok, abort, out_of_fuel, ◌>>=◌}
use ren_general.Scalar.{Scalar, ltb}
use ren_general.Scalar.Exact.{ℤ, pos, negsuc, pos_part, neg_part, sub_ℕ, leb_ℤ, whole}
use ren_general.Range.{Range, rem, length, new}
use ren_general.Vector.{Vector, vector}
use ren_general.Vector as vectors
use ren_general.Vector.Flat.{FlatVector, flat_vector}
use ren_general.Vector.Flat as flat
use ren_general.Rotation.Angle.{Angle, from_degrees, rotate}
use ren_general.Region.{Region}

unfoldable pub order_d : ℤ → ℤ → ℤ × ℤ
order_d low high = if leb_ℤ low high then (low, high) else (high, low)

abbrev pub is_zero : ℤ → Bool
is_zero (pos zero) = true
is_zero (pos (suc n)) = false
is_zero (negsuc n) = false

-- The result of an operation on int, of 32 bits, is undefined where it overflows, here a failure.
abbrev pub fits : ℤ → Bool
fits (pos n) = not (leb (2 ^ 31) n)
fits (negsuc n) = not (leb (2 ^ 31) n)

abbrev pub in_int : ℤ → Result ℤ
in_int z = if fits z then ok z else abort

module _ (rand : ℕ → ℕ) where
  unfoldable pub rander_b : ℕ → Bool × ℕ
  rander_b drawn = (rand drawn % 2 == 0, suc drawn)

  -- RanderD of a range, for int.
  unfoldable pub rander_d_in : Range whole → ℕ → Result (ℤ × ℕ)
  rander_d_in r drawn = in_int (length whole r) >>= λ size.
      if is_zero size
      then ok (r.min, drawn)
      else (in_int (whole.sub r.min r.max) >>= λ difference.
          in_int (whole.add r.min (rem (pos (rand drawn)) difference)) >>= λ value.
          ok (value, suc drawn))

  -- RanderD of the ends, for int.
  unfoldable pub rander_d : ℤ → ℤ → ℕ → Result (ℤ × ℕ)
  rander_d low high drawn = in_int (whole.sub high low) >>= λ size.
      if is_zero size
      then ok (low, drawn)
      else (in_int (whole.sub low high) >>= λ difference.
          in_int (whole.add low (rem (pos (rand drawn)) difference)) >>= λ value.
          ok (value, suc drawn))

  module _ (s : Scalar) where
    -- RanderF of a range.
    unfoldable pub rander_f_in : Range s → (possibilities : ℕ) → ℕ → s.F × ℕ
    unfolding length
    rander_f_in r possibilities drawn = if possibilities == 0 then (r.min, drawn) else (
      s.add r.min (
          s.mul (s.div (s.ratio (rand drawn % possibilities) 1) (s.ratio possibilities 1))
            (length s r)),
      suc drawn,
    )

    -- RanderF of the ends.
    unfoldable pub rander_f : (low high : s.F) → (possibilities : ℕ) → ℕ → s.F × ℕ
    rander_f low high possibilities drawn = if possibilities == 0 then (low, drawn) else (
      s.add low (
          s.mul (s.div (s.ratio (rand drawn % possibilities) 1) (s.ratio possibilities 1))
            (s.sub high low)),
      suc drawn,
    )

    module _ (finite : s.F → Bool) (sqrt : s.F → s.F) where
      -- A vector of three values drawn from -1 to 1.
      unfoldable pub random_vector : ℕ → Result (Vector s finite sqrt × ℕ)
      unfolding rander_f_in
      random_vector drawn =
          let space = new s (s.neg (s.ratio 1 1)) (s.ratio 1 1) in
          let (x, after_x) = rander_f_in space 1000 drawn in
          let (y, after_y) = rander_f_in space 1000 after_x in
          let (z, after_z) = rander_f_in space 1000 after_y in
          vector s finite sqrt x y z >>= λ v. ok (v, after_z)

      -- RandomSphericalVector: again while the vector is longer than 1.
      unfoldable pub random_spherical_vector : ℕ → ℕ → Result (Vector s finite sqrt × ℕ)
      unfolding random_vector
      random_spherical_vector zero drawn = out_of_fuel
      random_spherical_vector (suc fuel) drawn = random_vector drawn >>= λ (v, after).
          let again = random_spherical_vector fuel after in
          if ltb s (s.ratio 1 1) (vectors.length s finite sqrt v) then again else ok (v, after)

      unfoldable pub random_circular_vector :
          (sin cos : s.F → s.F) → (fuel : ℕ) → ℕ → Result (FlatVector s finite sqrt × ℕ)
      unfolding rander_f_in
      random_circular_vector sin cos fuel drawn =
          let (degrees, after) = rander_f_in (new s (s.ratio 0 1) (s.ratio 360 1)) 1000 drawn in
          from_degrees s finite fuel degrees >>= λ a.
          flat_vector s finite sqrt (s.ratio 1 1) (s.ratio 0 1) >>= λ v.
          rotate s finite sqrt sin cos a v >>= λ w. ok (w, after)

      -- RanderR.
      unfoldable pub rander_r :
          Region s finite sqrt → (possibilities : ℕ) → ℕ → Result (FlatVector s finite sqrt × ℕ)
      unfolding rander_f
      rander_r selection possibilities drawn =
          flat.at s finite sqrt selection.size (pos 0) >>= λ width.
          let (x, after_x) = rander_f (s.ratio 0 1) width possibilities drawn in
          flat.at s finite sqrt selection.size (pos 1) >>= λ height.
          let (y, after_y) = rander_f (s.ratio 0 1) height possibilities after_x in
          flat_vector s finite sqrt x y >>= λ offset.
          flat.add s finite sqrt selection.start offset >>= λ v. ok (v, after_y)
