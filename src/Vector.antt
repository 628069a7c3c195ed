-- ===== src/Vector.antt =====
-- vector.cxx and vector.h: Vector. Flat is FlatVector. `finite` is the test that the assertions
-- make, !isnan and !isinf, and `sqrt` is the one of math.h. The assignments are in Assign, but
-- for those with a scalar.
pub mod Flat
pub mod Assign
pub mod Finite
pub mod Equality
pub mod Tests
use ren_general.Base.{ℕ, zero, suc, Bool, true, false, not, ◌&&◌, ◌||◌, if◌then◌else◌}
use ren_general.Exception.{Result, ok, abort, ◌>>=◌, ◌>>◌, assert}
use ren_general.Scalar.{Scalar, eqb}
use ren_general.Scalar.Exact.{ℤ, pos}
use ren_general.Vector.Flat.{FlatVector}

module _ (s : Scalar) (finite : s.F → Bool) (sqrt : s.F → s.F) where
  pub record Vector : Type 0 where
    pub data_0 : s.F
    pub data_1 : s.F
    pub data_2 : s.F

  unfoldable pub origin : Vector
  origin = record { data_0 = s.ratio 0 1; data_1 = s.ratio 0 1; data_2 = s.ratio 0 1 }

  -- The constructor from the coordinates.
  abbrev pub vector : s.F → s.F → s.F → Result Vector
  vector x y z =
      assert (finite x)
      >> (assert (finite y)
          >> (assert (finite z) >> ok (record { data_0 = x; data_1 = y; data_2 = z })))

  unfoldable pub from_flat : FlatVector s finite sqrt → s.F → Result Vector
  from_flat v z =
      assert (finite z) >> ok (record { data_0 = v.data_0; data_1 = v.data_1; data_2 = z })

  unfoldable pub add : Vector → Vector → Result Vector
  add v w = vector (s.add v.data_0 w.data_0) (s.add v.data_1 w.data_1) (s.add v.data_2 w.data_2)

  unfoldable pub sub : Vector → Vector → Result Vector
  sub v w = vector (s.sub v.data_0 w.data_0) (s.sub v.data_1 w.data_1) (s.sub v.data_2 w.data_2)

  unfoldable pub mul : Vector → Vector → Result Vector
  mul v w = vector (s.mul v.data_0 w.data_0) (s.mul v.data_1 w.data_1) (s.mul v.data_2 w.data_2)

  unfoldable pub scale : Vector → s.F → Result Vector
  scale v k = vector (s.mul v.data_0 k) (s.mul v.data_1 k) (s.mul v.data_2 k)

  unfoldable pub div : Vector → Vector → Result Vector
  div v w = vector (s.div v.data_0 w.data_0) (s.div v.data_1 w.data_1) (s.div v.data_2 w.data_2)

  unfoldable pub div_scalar : Vector → s.F → Result Vector
  div_scalar v k =
      assert (finite k) >> vector (s.div v.data_0 k) (s.div v.data_1 k) (s.div v.data_2 k)

  -- The assignments with a scalar assert it a first time.
  unfoldable pub scale_assign : Vector → s.F → Result Vector
  unfolding scale
  scale_assign v k = assert (finite k) >> scale v k

  unfoldable pub div_assign : Vector → s.F → Result Vector
  unfolding div_scalar
  div_assign v k = assert (finite k) >> div_scalar v k

  unfoldable pub eq : Vector → Vector → Bool
  eq v w =
      if eqb s v.data_0 w.data_0 && (eqb s v.data_1 w.data_1 && eqb s v.data_2 w.data_2)
      then true
      else false

  unfoldable pub ne : Vector → Vector → Bool
  ne v w =
      if not (eqb s v.data_0 w.data_0)
        || (not (eqb s v.data_1 w.data_1) || not (eqb s v.data_2 w.data_2))
      then true
      else false

  -- Both subscripts, with their assertions.
  unfoldable pub at : Vector → ℤ → Result s.F
  at v (pos zero) = ok v.data_0
  at v (pos (suc zero)) = ok v.data_1
  at v (pos (suc (suc zero))) = ok v.data_2
  at v _ = abort

  unfoldable pub squared_length : Vector → s.F
  squared_length v =
      s.add (s.add (s.mul v.data_0 v.data_0) (s.mul v.data_1 v.data_1)) (s.mul v.data_2 v.data_2)

  unfoldable pub length : Vector → s.F
  length v =
      sqrt (
        s.add (s.add (s.mul v.data_0 v.data_0) (s.mul v.data_1 v.data_1)) (s.mul v.data_2 v.data_2))

  -- Normalize assigns the same to the vector.
  unfoldable pub normal : Vector → Result Vector
  unfolding length div_scalar
  normal v = div_scalar v (length v)

  unfoldable pub scalar_mul : s.F → Vector → Result Vector
  scalar_mul k v =
      assert (finite k) >> vector (s.mul v.data_0 k) (s.mul v.data_1 k) (s.mul v.data_2 k)

  unfoldable pub dot_product : Vector → Vector → s.F
  dot_product v w =
      s.add (s.add (s.mul v.data_0 w.data_0) (s.mul v.data_1 w.data_1)) (s.mul v.data_2 w.data_2)

  unfoldable pub cross_product : Vector → Vector → Result Vector
  cross_product v w =
      vector (s.sub (s.mul v.data_1 w.data_2) (s.mul v.data_2 w.data_1))
        (s.sub (s.mul v.data_2 w.data_0) (s.mul v.data_0 w.data_2))
        (s.sub (s.mul v.data_0 w.data_1) (s.mul v.data_1 w.data_0))
