-- ===== src/Vector/Flat.antt =====
-- vector.cxx and vector.h: FlatVector, after the fashion of Vector. Its equalities read the float
-- behind the two of the array, which is their argument `beyond`.
pub mod Assign
use ren_general.Base.{zero, suc, Bool, not, ◌&&◌, ◌||◌}
use ren_general.Exception.{Result, ok, abort, ◌>>◌, assert}
use ren_general.Scalar.{Scalar, eqb}
use ren_general.Scalar.Exact.{ℤ, pos}

module _ (s : Scalar) (finite : s.F → Bool) (sqrt : s.F → s.F) where
  pub record FlatVector : Type 0 where
    pub data_0 : s.F
    pub data_1 : s.F

  unfoldable pub origin : FlatVector
  origin = record { data_0 = s.ratio 0 1; data_1 = s.ratio 0 1 }

  -- The constructor from the coordinates.
  abbrev pub flat_vector : s.F → s.F → Result FlatVector
  flat_vector x y =
      assert (finite x) >> (assert (finite y) >> ok (record { data_0 = x; data_1 = y }))

  unfoldable pub add : FlatVector → FlatVector → Result FlatVector
  add v w = flat_vector (s.add v.data_0 w.data_0) (s.add v.data_1 w.data_1)

  unfoldable pub sub : FlatVector → FlatVector → Result FlatVector
  sub v w = flat_vector (s.sub v.data_0 w.data_0) (s.sub v.data_1 w.data_1)

  unfoldable pub mul : FlatVector → FlatVector → Result FlatVector
  mul v w = flat_vector (s.mul v.data_0 w.data_0) (s.mul v.data_1 w.data_1)

  unfoldable pub scale : FlatVector → s.F → Result FlatVector
  scale v k = assert (finite k) >> flat_vector (s.mul v.data_0 k) (s.mul v.data_1 k)

  unfoldable pub div : FlatVector → FlatVector → Result FlatVector
  div v w = flat_vector (s.div v.data_0 w.data_0) (s.div v.data_1 w.data_1)

  unfoldable pub div_scalar : FlatVector → s.F → Result FlatVector
  div_scalar v k = assert (finite k) >> flat_vector (s.div v.data_0 k) (s.div v.data_1 k)

  -- The assignments with a scalar assert it a first time.
  unfoldable pub scale_assign : FlatVector → s.F → Result FlatVector
  unfolding scale
  scale_assign v k = assert (finite k) >> scale v k

  unfoldable pub div_assign : FlatVector → s.F → Result FlatVector
  unfolding div_scalar
  div_assign v k = assert (finite k) >> div_scalar v k

  unfoldable pub negate : FlatVector → Result FlatVector
  unfolding scale
  negate v = scale v (s.neg (s.ratio 1 1))

  unfoldable pub eq : (beyond : s.F) → FlatVector → FlatVector → Bool
  eq beyond v w = eqb s v.data_0 w.data_0 && (eqb s v.data_1 w.data_1 && eqb s beyond w.data_1)

  unfoldable pub ne : (beyond : s.F) → FlatVector → FlatVector → Bool
  ne beyond v w =
      not (eqb s v.data_0 w.data_0)
      || (not (eqb s v.data_1 w.data_1) || not (eqb s beyond w.data_1))

  -- Both subscripts, with their assertions.
  unfoldable pub at : FlatVector → ℤ → Result s.F
  at v (pos zero) = ok v.data_0
  at v (pos (suc zero)) = ok v.data_1
  at v _ = abort

  unfoldable pub squared_length : FlatVector → s.F
  squared_length v = s.add (s.mul v.data_0 v.data_0) (s.mul v.data_1 v.data_1)

  unfoldable pub length : FlatVector → s.F
  length v = sqrt (s.add (s.mul v.data_0 v.data_0) (s.mul v.data_1 v.data_1))

  -- Normalize assigns the same to the vector.
  unfoldable pub normal : FlatVector → Result FlatVector
  unfolding length div_scalar
  normal v = div_scalar v (length v)

  unfoldable pub scalar_mul : s.F → FlatVector → Result FlatVector
  scalar_mul k v = assert (finite k) >> flat_vector (s.mul v.data_0 k) (s.mul v.data_1 k)

  unfoldable pub dot_product : FlatVector → FlatVector → s.F
  dot_product v w = s.add (s.mul v.data_0 w.data_0) (s.mul v.data_1 w.data_1)

  unfoldable pub quarter_right : FlatVector → Result FlatVector
  quarter_right v = flat_vector v.data_1 (s.neg v.data_0)

  unfoldable pub quarter_left : FlatVector → Result FlatVector
  quarter_left v = flat_vector (s.neg v.data_1) v.data_0
