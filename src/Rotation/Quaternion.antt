-- ===== src/Rotation/Quaternion.antt =====
-- rotation.cxx: Quaternion and the functions about it. `finite` is the test that the assertions make,
-- and the functions of math.h are parameters. operator *= gives what operator * gives.
use ren_general.Base.{ℕ, zero, suc, Bool, if◌then◌else◌}
use ren_general.Exception.{Result, ok, abort, ◌>>=◌, ◌>>◌, assert}
use ren_general.Scalar.{Scalar, ltb, one}
use ren_general.Scalar.Exact.{ℤ, pos}
use ren_general.Vector
use ren_general.Vector.{Vector}
use ren_general.Rotation.Angle
use ren_general.Rotation.Angle.{Angle}

module _ (s : Scalar) (finite : s.F → Bool) (sqrt : s.F → s.F) where
  pub record Quaternion : Type 0 where
    pub data_0 : s.F
    pub data_1 : s.F
    pub data_2 : s.F
    pub data_3 : s.F

  unfoldable pub new : Quaternion
  new = record {
    data_0 = s.ratio 0 1;
    data_1 = s.ratio 0 1;
    data_2 = s.ratio 0 1;
    data_3 = s.ratio 1 1;
  }

  unfoldable pub quaternion : s.F → s.F → s.F → s.F → Result Quaternion
  quaternion x y z w =
      assert (finite x)
      >> (assert (finite y)
          >> (assert (finite z)
              >> (assert (finite w)
                  >> ok (record { data_0 = x; data_1 = y; data_2 = z; data_3 = w }))))

  -- Pi / 180.0, with the digits of the source.
  abbrev pub to_radians : s.F
  to_radians = s.div (s.ratio 3141592653589793238 1000000000000000000) (s.ratio 180 1)

  -- `Rotation * ToRadians` is the operator of Angle.
  unfoldable pub from_axis :
      (sin cos : s.F → s.F) (fuel : ℕ) → Vector s finite sqrt → Angle s finite → Result Quaternion
  from_axis sin cos fuel axis rotation = Angle.mul s finite fuel rotation to_radians >>= λ radians.
      let angle_sin = sin (s.div radians (s.ratio 2 1)) in
      ok (record {
        data_0 = s.mul axis.data_0 angle_sin;
        data_1 = s.mul axis.data_1 angle_sin;
        data_2 = s.mul axis.data_2 angle_sin;
        data_3 = cos (s.div radians (s.ratio 2 1));
      })

  unfoldable pub from_vector : Vector s finite sqrt → Quaternion
  from_vector v = record {
    data_0 = v.data_0;
    data_1 = v.data_1;
    data_2 = v.data_2;
    data_3 = s.ratio 0 1;
  }

  -- The product: the sum of vectors is built first, and then the last part is set.
  unfoldable pub multiply : Quaternion → Quaternion → Result Quaternion
  unfolding from_vector
  multiply p q = Vector.vector s finite sqrt p.data_0 p.data_1 p.data_2 >>= λ v.
      Vector.vector s finite sqrt q.data_0 q.data_1 q.data_2 >>= λ w.
      Vector.cross_product s finite sqrt v w >>= λ cross.
      Vector.scalar_mul s finite sqrt p.data_3 w >>= λ by_this.
      Vector.add s finite sqrt cross by_this >>= λ sum.
      Vector.scalar_mul s finite sqrt q.data_3 v >>= λ by_operand.
      Vector.add s finite sqrt sum by_operand >>= λ total. ok (record (from_vector total) {
        data_3 = s.sub (s.mul p.data_3 q.data_3) (Vector.dot_product s finite sqrt v w);
      })

  unfoldable pub add : Quaternion → Quaternion → Result Quaternion
  unfolding quaternion
  add p q =
      quaternion (s.add p.data_0 q.data_0) (s.add p.data_1 q.data_1) (s.add p.data_2 q.data_2)
        (s.add p.data_3 q.data_3)

  unfoldable pub sub : Quaternion → Quaternion → Result Quaternion
  unfolding quaternion
  sub p q =
      quaternion (s.sub p.data_0 q.data_0) (s.sub p.data_1 q.data_1) (s.sub p.data_2 q.data_2)
        (s.sub p.data_3 q.data_3)

  unfoldable pub div_scalar : Quaternion → s.F → Result Quaternion
  unfolding quaternion
  div_scalar q k =
      assert (finite k)
      >> quaternion (s.div q.data_0 k) (s.div q.data_1 k) (s.div q.data_2 k) (s.div q.data_3 k)

  unfoldable pub scale : Quaternion → s.F → Result Quaternion
  unfolding quaternion
  scale q k =
      assert (finite k)
      >> quaternion (s.mul q.data_0 k) (s.mul q.data_1 k) (s.mul q.data_2 k) (s.mul q.data_3 k)

  unfoldable pub conjugate : Quaternion → Result Quaternion
  unfolding quaternion
  conjugate q = quaternion (s.neg q.data_0) (s.neg q.data_1) (s.neg q.data_2) q.data_3

  -- GetLength and DotProduct.
  unfoldable pub get_length : Quaternion → s.F
  get_length q = sqrt (
      s.add
        (s.add (s.add (s.mul q.data_0 q.data_0) (s.mul q.data_1 q.data_1))
          (s.mul q.data_2 q.data_2))
        (s.mul q.data_3 q.data_3))

  unfoldable pub dot_product : Quaternion → Quaternion → s.F
  dot_product p q =
      s.add
        (s.add (s.add (s.mul p.data_0 q.data_0) (s.mul p.data_1 q.data_1))
          (s.mul p.data_2 q.data_2))
        (s.mul p.data_3 q.data_3)

  unfoldable pub normal : Quaternion → Result Quaternion
  unfolding get_length div_scalar quaternion
  normal q =
      let total = get_length q in
      quaternion q.data_0 q.data_1 q.data_2 q.data_3 >>= λ same. div_scalar same total

  -- Both subscripts, with their assertions.
  unfoldable pub at : Quaternion → ℤ → Result s.F
  at q (pos zero) = ok q.data_0
  at q (pos (suc zero)) = ok q.data_1
  at q (pos (suc (suc zero))) = ok q.data_2
  at q (pos (suc (suc (suc zero)))) = ok q.data_3
  at q _ = abort

  unfoldable pub to_vector : Quaternion → Result (Vector s finite sqrt)
  to_vector q = Vector.vector s finite sqrt q.data_0 q.data_1 q.data_2

  -- The operand that is negated for a negative product is computed, and not used.
  unfoldable pub interpolate :
      (fabs sin acos : s.F → s.F) → s.F → Quaternion → Quaternion → Result Quaternion
  unfolding dot_product scale add sub div_scalar normal
  interpolate fabs sin acos percent p q =
      let dot = dot_product p q in
      let difference = acos dot in
      let spherical : Result Quaternion =
        (if ltb s dot (s.ratio 0 1) then scale q (s.neg (one s)) else ok new) >>= λ fixed.
        scale p (sin (s.mul difference (s.sub (one s) percent))) >>= λ from.
        scale q (sin (s.mul difference percent)) >>= λ to.
        add from to >>= λ sum. div_scalar sum (sin difference) in
      let linear : Result Quaternion = sub q p >>= λ change.
      scale change percent >>= λ part. add part p >>= λ output. normal output in
      assert (finite percent) >> (if ltb s (fabs dot) (s.ratio 99 100) then spherical else linear)
