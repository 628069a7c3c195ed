-- ===== src/Rotation/Tests.antt =====
-- The theorems on rotations at whole numbers.
use Prim.Native.Nat.{ℕ}
use ren_general.Base.{◌+◌, ◌*◌, ◌≡◌, refl, sym, Bool, true, ◌&&◌, arith}
use ren_general.Exception.{ok, out_of_fuel}
use ren_general.Scalar.{Scalar}
use ren_general.Scalar.Exact.{
  ℤ, pos, negsuc, neg_part, pos_part, sub_ℕ, leb_ℤ, whole, whole-Ordered,
}
use ren_general.Rotation.Angle.{Angle, fix_angle, full, shortest_change}
use ren_general.Rotation.Angle.Bounds.{
  IsLeast, Turning, fix_angle_lem, fix_angle-absorbed, shortest_change-IsLeast,
}
use ren_general.Rotation.Quaternion.{Quaternion, conjugate, quaternion}
use ren_general.Rotation.Matrix.{Matrix, from_quaternion, transpose}
use ren_general.Rotation.Matrix.Transpose.{Signed, from_quaternion-conjugate}

abbrev any : ℤ → Bool
any a = true

abbrev root : ℤ → ℤ
root a = a

-- Thousands in either direction.
abbrev thousands : ℤ → Bool
thousands v = leb_ℤ (negsuc 9999) v && leb_ℤ v (pos 10000)

thousands-Turning : Turning whole thousands pos_part neg_part
thousands-Turning = record {
  sub_near = λ v n h. ground (arith, n, h);
  sub_progress = λ v n h. ground (arith, h);
  sub_positive = λ v n h. ground (arith, h);
  add_near = λ v n h. ground (arith, n, h);
  add_progress = λ v n h. ground (arith, h);
  add_most = λ v n h. ground (arith, h);
}

fix_angle_lem_example :
    (r : ℤ) × (fix_angle whole any 1000 (pos 750) ≡ ok r)
    × (leb_ℤ (pos 0) r ≡ true)
    × (leb_ℤ r (full whole any) ≡ true)
fix_angle_lem_example =
    fix_angle_lem whole any thousands pos_part neg_part thousands-Turning 1000 (pos 750) refl
      (omega arith) (omega arith)

-- Numbers of which a turn is lost in rounding.
abbrev coarse : Scalar
coarse = record whole { sub = λ a b. a }

fix_angle-absorbed_example : fix_angle coarse any 100 (pos 10000000000) ≡ out_of_fuel
fix_angle-absorbed_example = fix_angle-absorbed coarse any (pos 10000000000) 100 refl refl

abbrev size_of : ℤ → ℤ
size_of a = pos (pos_part a + neg_part a)

abbrev angle : ℕ → Angle whole any
angle n = record { degrees = pos n }

shortest_change-IsLeast_example :
    IsLeast whole any size_of
      (pos 340)
      (negsuc 19)
      (pos 700)
      (shortest_change whole any size_of (angle 10) (angle 350))
shortest_change-IsLeast_example =
    shortest_change-IsLeast whole any whole-Ordered size_of (angle 10) (angle 350)

mul_comm_whole : (a b : ℤ) → whole.mul a b ≡ whole.mul b a
mul_comm_whole a b =
    let plus : pos_part a * pos_part b + neg_part a * neg_part b
        ≡ pos_part b * pos_part a + neg_part b * neg_part a =
      omega arith in
    let minus : pos_part a * neg_part b + neg_part a * pos_part b
        ≡ pos_part b * neg_part a + neg_part b * pos_part a =
      omega arith in
    cc

pos_part-neg : (b : ℤ) → pos_part (whole.neg b) ≡ neg_part b
pos_part-neg b = ground arith

neg_part-neg : (b : ℤ) → neg_part (whole.neg b) ≡ pos_part b
neg_part-neg b = ground arith

neg-sub_ℕ : (x y : ℕ) → whole.neg (sub_ℕ x y) ≡ sub_ℕ y x
neg-sub_ℕ x y = ground arith

mul_neg_whole : (a b : ℤ) → whole.mul a (whole.neg b) ≡ whole.neg (whole.mul a b)
mul_neg_whole a b =
    rw (pos_part-neg b, neg_part-neg b)
      (sym (
        neg-sub_ℕ (pos_part a * pos_part b + neg_part a * neg_part b)
          (pos_part a * neg_part b + neg_part a * pos_part b)))

whole-Signed : Signed whole
whole-Signed = record {
  mul_comm = mul_comm_whole;
  mul_neg = mul_neg_whole;
  neg_neg = λ a. ground arith;
  add_neg = λ a b. ground arith;
  sub_neg = λ a b. ground arith;
}

abbrev left : Matrix whole any root
left = record {
  e0 = pos 1;
  e1 = pos 2;
  e2 = pos 3;
  e3 = pos 0;
  e4 = pos 1;
  e5 = pos 4;
  e6 = negsuc 0;
  e7 = pos 0;
  e8 = pos 1;
}

abbrev right : Matrix whole any root
right = record {
  e0 = pos 0;
  e1 = pos 1;
  e2 = pos 0;
  e3 = pos 1;
  e4 = pos 0;
  e5 = pos 5;
  e6 = pos 2;
  e7 = pos 0;
  e8 = pos 0;
}

abbrev left_right : Matrix whole any root
left_right = record {
  e0 = pos 0;
  e1 = pos 1;
  e2 = pos 4;
  e3 = negsuc 3;
  e4 = pos 2;
  e5 = pos 8;
  e6 = pos 2;
  e7 = pos 4;
  e8 = pos 6;
}

abbrev turn : Quaternion whole any root
turn = record { data_0 = pos 1; data_1 = pos 2; data_2 = negsuc 0; data_3 = pos 3 }

abbrev back : Quaternion whole any root
back = record { data_0 = negsuc 0; data_1 = negsuc 1; data_2 = pos 1; data_3 = pos 3 }

from_quaternion-conjugate_example :
    transpose whole any root (from_quaternion whole any root turn)
    ≡ ok (from_quaternion whole any root back)
unfolding conjugate quaternion from_quaternion
from_quaternion-conjugate_example =
    from_quaternion-conjugate whole any root whole-Signed turn back refl refl
