-- ===== src/Rotation/Matrix/Transpose.antt =====
-- Matrix::Transpose beside the product of matrices and the matrix of a quaternion.
use mathlib.Core.Path.{subst}
use ren_general.Base.{◌≡◌, refl, sym, ap, ◌∙◌, Bool, true, arith}
use ren_general.Exception.{Result, ok, IfOk-assert, IfOk-ok, ◌>>=◌, ◌>>◌, assert}
use ren_general.Scalar.{Scalar}
use ren_general.Rotation.Quaternion.{Quaternion, conjugate, quaternion}
use ren_general.Rotation.Matrix.{
  Matrix, all_finite, elements, from_quaternion, matrix, multiply, sum_3, transpose, twice,
}

-- What holds for float arithmetic without NaN whatever the rounding: products commute, and a sign can
-- be moved.
pub record Signed (s : Scalar) : Type 0 where
  pub mul_comm : (a b : s.F) → s.mul a b ≡ s.mul b a
  pub mul_neg : (a b : s.F) → s.mul a (s.neg b) ≡ s.neg (s.mul a b)
  pub neg_neg : (a : s.F) → s.neg (s.neg a) ≡ a
  pub add_neg : (a b : s.F) → s.add a (s.neg b) ≡ s.sub a b
  pub sub_neg : (a b : s.F) → s.sub a (s.neg b) ≡ s.add a b

module _ (s : Scalar) (finite : s.F → Bool) (sqrt : s.F → s.F) where
  abbrev pub IsFinite : Matrix s finite sqrt → Type 0
  IsFinite m = all_finite s finite sqrt (elements s finite sqrt m) ≡ true

  abbrev transposed : Matrix s finite sqrt → Matrix s finite sqrt
  transposed m = record {
    e0 = m.e0;
    e1 = m.e3;
    e2 = m.e6;
    e3 = m.e1;
    e4 = m.e4;
    e5 = m.e7;
    e6 = m.e2;
    e7 = m.e5;
    e8 = m.e8;
  }

  matrix-IsFinite : (m : Matrix s finite sqrt) → IsFinite m → matrix s finite sqrt m ≡ ok m
  matrix-IsFinite m h = rw h refl

  transposed-IsFinite : (m : Matrix s finite sqrt) → IsFinite m → IsFinite (transposed m)
  transposed-IsFinite m h = ground (arith, h)

  transpose_lem :
      (m : Matrix s finite sqrt) → IsFinite m → transpose s finite sqrt m ≡ ok (transposed m)
  unfolding transpose
  transpose_lem m h = matrix-IsFinite (transposed m) (transposed-IsFinite m h)

  returned : (m p : Matrix s finite sqrt) → matrix s finite sqrt m ≡ ok p → IsFinite m × (m ≡ p)
  returned m p h =
      let Kept : Matrix s finite sqrt → Type 0 = λ x. IsFinite m × (m ≡ x) in
      IfOk-ok Kept
        (IfOk-assert Kept (all_finite s finite sqrt (elements s finite sqrt m)) (ok m)
          (λ e. (e, refl)))
        h

  -- Transposing a matrix with finite elements twice gives the matrix back.
  pub transpose-transpose :
      (m : Matrix s finite sqrt)
      → IsFinite m
      → (transpose s finite sqrt m >>= transpose s finite sqrt) ≡ ok m
  transpose-transpose m h =
      ap (λ r. r >>= transpose s finite sqrt) (transpose_lem m h)
      ∙ transpose_lem (transposed m) (transposed-IsFinite m h)

  module _ (signed : Signed s) where
    sum_comm :
        (a b c x y z : s.F) → sum_3 s finite sqrt a b c x y z ≡ sum_3 s finite sqrt x y z a b c
    sum_comm a b c x y z =
        let first = signed.mul_comm a x in
        let second = signed.mul_comm b y in let third = signed.mul_comm c z in cc

    product : (m n : Matrix s finite sqrt) → Matrix s finite sqrt
    product m n = record {
      e0 = sum_3 s finite sqrt m.e0 m.e3 m.e6 n.e0 n.e1 n.e2;
      e1 = sum_3 s finite sqrt m.e1 m.e4 m.e7 n.e0 n.e1 n.e2;
      e2 = sum_3 s finite sqrt m.e2 m.e5 m.e8 n.e0 n.e1 n.e2;
      e3 = sum_3 s finite sqrt m.e0 m.e3 m.e6 n.e3 n.e4 n.e5;
      e4 = sum_3 s finite sqrt m.e1 m.e4 m.e7 n.e3 n.e4 n.e5;
      e5 = sum_3 s finite sqrt m.e2 m.e5 m.e8 n.e3 n.e4 n.e5;
      e6 = sum_3 s finite sqrt m.e0 m.e3 m.e6 n.e6 n.e7 n.e8;
      e7 = sum_3 s finite sqrt m.e1 m.e4 m.e7 n.e6 n.e7 n.e8;
      e8 = sum_3 s finite sqrt m.e2 m.e5 m.e8 n.e6 n.e7 n.e8;
    }

    product_comm :
        (m n : Matrix s finite sqrt)
        → transposed (product m n) ≡ product (transposed n) (transposed m)
    unfolding product
    product_comm m n =
        let c0 = sum_comm m.e0 m.e3 m.e6 n.e0 n.e1 n.e2 in
        let c1 = sum_comm m.e1 m.e4 m.e7 n.e0 n.e1 n.e2 in
        let c2 = sum_comm m.e2 m.e5 m.e8 n.e0 n.e1 n.e2 in
        let c3 = sum_comm m.e0 m.e3 m.e6 n.e3 n.e4 n.e5 in
        let c4 = sum_comm m.e1 m.e4 m.e7 n.e3 n.e4 n.e5 in
        let c5 = sum_comm m.e2 m.e5 m.e8 n.e3 n.e4 n.e5 in
        let c6 = sum_comm m.e0 m.e3 m.e6 n.e6 n.e7 n.e8 in
        let c7 = sum_comm m.e1 m.e4 m.e7 n.e6 n.e7 n.e8 in
        let c8 = sum_comm m.e2 m.e5 m.e8 n.e6 n.e7 n.e8 in cc

    -- Where the product of two matrices with finite elements returns, its transposed matrix is the
    -- product of the transposed matrices in the other order.
    pub transpose-multiply :
        (m n p : Matrix s finite sqrt)
        → IsFinite m
        → IsFinite n
        → multiply s finite sqrt m n ≡ ok p
        → transpose s finite sqrt p ≡ (
            transpose s finite sqrt m >>= λ m'.
            transpose s finite sqrt n >>= λ n'. multiply s finite sqrt n' m')
    unfolding multiply product
    transpose-multiply m n p hm hn h =
        let (finite_product, same) = returned _ p h in
        let left = ap (transpose s finite sqrt) (sym same) ∙ transpose_lem _ finite_product in
        let commuted = product_comm m n in
        let whole = subst IsFinite commuted (transposed-IsFinite (product m n) finite_product) in
        let right =
          ap (λ r. r >>= λ m'. transpose s finite sqrt n >>= λ n'. multiply s finite sqrt n' m')
            (transpose_lem m hm)
          ∙ ap (λ r. r >>= λ n'. multiply s finite sqrt n' (transposed m)) (transpose_lem n hn)
          ∙ matrix-IsFinite (product (transposed n) (transposed m)) whole in
        left ∙ ap (λ x. ok x) commuted ∙ sym right

    twice_neg : (a b : s.F) → twice s finite sqrt (s.neg a) b ≡ s.neg (twice s finite sqrt a b)
    twice_neg a b =
        let two = s.ratio 2 1 in
        let inner = signed.mul_neg two a in
        let swapped = signed.mul_comm (s.neg (s.mul two a)) b in
        let moved = signed.mul_neg b (s.mul two a) in
        let back = signed.mul_comm b (s.mul two a) in cc

    twice-neg-neg : (a b : s.F) → twice s finite sqrt (s.neg a) (s.neg b) ≡ twice s finite sqrt a b
    twice-neg-neg a b =
        let first = twice_neg a (s.neg b) in
        let second = signed.mul_neg (s.mul (s.ratio 2 1) a) b in
        let twofold = signed.neg_neg (twice s finite sqrt a b) in cc

    abbrev conjugated : Quaternion s finite sqrt → Quaternion s finite sqrt
    conjugated q = record q {
      data_0 = s.neg q.data_0;
      data_1 = s.neg q.data_1;
      data_2 = s.neg q.data_2;
    }

    -- The sums and the differences off the diagonal change their places.
    opposite_sum :
        (x a b : s.F)
        → s.add x (twice s finite sqrt (s.neg a) b) ≡ s.sub x (twice s finite sqrt a b)
    opposite_sum x a b = ap (s.add x) (twice_neg a b) ∙ signed.add_neg x (twice s finite sqrt a b)

    opposite_difference :
        (x a b : s.F)
        → s.sub x (twice s finite sqrt (s.neg a) b) ≡ s.add x (twice s finite sqrt a b)
    opposite_difference x a b =
        ap (s.sub x) (twice_neg a b) ∙ signed.sub_neg x (twice s finite sqrt a b)

    from_quaternion-conjugated :
        (q : Quaternion s finite sqrt)
        → from_quaternion s finite sqrt (conjugated q)
          ≡ transposed (from_quaternion s finite sqrt q)
    unfolding from_quaternion
    from_quaternion-conjugated q =
        let x = q.data_0 in
        let y = q.data_1 in
        let z = q.data_2 in
        let w = q.data_3 in
        let two = twice s finite sqrt in
        let xx = twice-neg-neg x x in
        let yy = twice-neg-neg y y in
        let zz = twice-neg-neg z z in
        let xy = twice-neg-neg x y in
        let xz = twice-neg-neg x z in
        let yz = twice-neg-neg y z in
        let sx = opposite_sum (two y z) x w in
        let sy = opposite_sum (two x z) y w in
        let sz = opposite_sum (two x y) z w in
        let dx = opposite_difference (two y z) x w in
        let dy = opposite_difference (two x z) y w in
        let dz = opposite_difference (two x y) z w in cc

    conjugate_lem :
        (q c : Quaternion s finite sqrt) → conjugate s finite sqrt q ≡ ok c → conjugated q ≡ c
    unfolding conjugate quaternion
    conjugate_lem q c e =
        let Same : Quaternion s finite sqrt → Type 0 = λ x. conjugated q ≡ x in
        let built : Result (Quaternion s finite sqrt) = ok (conjugated q) in
        let w : Result (Quaternion s finite sqrt) = assert (finite q.data_3) >> built in
        let z : Result (Quaternion s finite sqrt) = assert (finite (s.neg q.data_2)) >> w in
        let y : Result (Quaternion s finite sqrt) = assert (finite (s.neg q.data_1)) >> z in
        IfOk-ok Same
          (IfOk-assert Same (finite (s.neg q.data_0)) y (λ _.
            IfOk-assert Same (finite (s.neg q.data_1)) z (λ _.
              IfOk-assert Same (finite (s.neg q.data_2)) w
                (λ _. IfOk-assert Same (finite q.data_3) built (λ _. refl)))))
          e

    -- The matrix of the conjugate of a quaternion is the transposed matrix of the quaternion, where
    -- their elements are finite.
    pub from_quaternion-conjugate :
        (q c : Quaternion s finite sqrt)
        → conjugate s finite sqrt q ≡ ok c
        → IsFinite (from_quaternion s finite sqrt q)
        → transpose s finite sqrt (from_quaternion s finite sqrt q)
          ≡ ok (from_quaternion s finite sqrt c)
    from_quaternion-conjugate q c e h =
        transpose_lem (from_quaternion s finite sqrt q) h
        ∙ ap (λ m. ok m) (sym (from_quaternion-conjugated q))
        ∙ ap (λ x. ok (from_quaternion s finite sqrt x)) (conjugate_lem q c e)
