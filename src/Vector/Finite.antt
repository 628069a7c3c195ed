-- ===== src/Vector/Finite.antt =====
-- What the operators return has finite coordinates, and their answers on the way there.
use ren_general.Base.{◌≡◌, refl, Bool, true, false}
use ren_general.Exception.{Result, ok, abort, ◌>>◌, assert, IfOk, IfOk-assert}
use ren_general.Scalar.{Scalar}
use ren_general.Vector.{
  Vector, vector, add, sub, mul, scale, div, div_scalar, scale_assign, div_assign, length, normal,
  scalar_mul, cross_product,
}

module _ (s : Scalar) (finite : s.F → Bool) (sqrt : s.F → s.F) where
  abbrev pub IsFinite : Vector s finite sqrt → Type 0
  IsFinite v = (finite v.data_0 ≡ true) × (finite v.data_1 ≡ true) × (finite v.data_2 ≡ true)

  vector-IsFinite : (x y z : s.F) → IfOk IsFinite (vector s finite sqrt x y z)
  vector-IsFinite x y z =
      IfOk-assert IsFinite (finite x)
        (assert (finite y)
          >> (assert (finite z) >> ok (record { data_0 = x; data_1 = y; data_2 = z })))
        (λ hx.
          IfOk-assert IsFinite (finite y)
            (assert (finite z) >> ok (record { data_0 = x; data_1 = y; data_2 = z }))
            (λ hy.
              IfOk-assert IsFinite (finite z) (ok (record { data_0 = x; data_1 = y; data_2 = z }))
                (λ hz. (hx, hy, hz))))

  pub data Operation : Type 0 where
    adds subs muls divs crosses : Vector s finite sqrt → Operation
    scales scale_assigns divs_scalar div_assigns scaled_by : s.F → Operation
    normalizes : Operation

  unfoldable pub apply : Vector s finite sqrt → Operation → Result (Vector s finite sqrt)
  apply v (adds w) = add s finite sqrt v w
  apply v (subs w) = sub s finite sqrt v w
  apply v (muls w) = mul s finite sqrt v w
  apply v (divs w) = div s finite sqrt v w
  apply v (crosses w) = cross_product s finite sqrt v w
  apply v (scales k) = scale s finite sqrt v k
  apply v (scale_assigns k) = scale_assign s finite sqrt v k
  apply v (divs_scalar k) = div_scalar s finite sqrt v k
  apply v (div_assigns k) = div_assign s finite sqrt v k
  apply v (scaled_by k) = scalar_mul s finite sqrt k v
  apply v normalizes = normal s finite sqrt v

  div_scalar-IsFinite :
      (v : Vector s finite sqrt) (k : s.F) → IfOk IsFinite (div_scalar s finite sqrt v k)
  unfolding div_scalar
  div_scalar-IsFinite v k =
      IfOk-assert IsFinite (finite k)
        (vector s finite sqrt (s.div v.data_0 k) (s.div v.data_1 k) (s.div v.data_2 k))
        (λ h. vector-IsFinite (s.div v.data_0 k) (s.div v.data_1 k) (s.div v.data_2 k))

  scale-IsFinite : (v : Vector s finite sqrt) (k : s.F) → IfOk IsFinite (scale s finite sqrt v k)
  unfolding scale
  scale-IsFinite v k = vector-IsFinite (s.mul v.data_0 k) (s.mul v.data_1 k) (s.mul v.data_2 k)

  -- Every operator that returns a vector returns one with finite coordinates, whatever it is
  -- applied to.
  pub apply-IsFinite : (v : Vector s finite sqrt) (o : Operation) → IfOk IsFinite (apply v o)
  unfolding apply add sub mul div cross_product scale_assign div_assign scalar_mul normal
  apply-IsFinite v (adds w) =
      vector-IsFinite (s.add v.data_0 w.data_0) (s.add v.data_1 w.data_1) (s.add v.data_2 w.data_2)
  apply-IsFinite v (subs w) =
      vector-IsFinite (s.sub v.data_0 w.data_0) (s.sub v.data_1 w.data_1) (s.sub v.data_2 w.data_2)
  apply-IsFinite v (muls w) =
      vector-IsFinite (s.mul v.data_0 w.data_0) (s.mul v.data_1 w.data_1) (s.mul v.data_2 w.data_2)
  apply-IsFinite v (divs w) =
      vector-IsFinite (s.div v.data_0 w.data_0) (s.div v.data_1 w.data_1) (s.div v.data_2 w.data_2)
  apply-IsFinite v (crosses w) =
      vector-IsFinite (s.sub (s.mul v.data_1 w.data_2) (s.mul v.data_2 w.data_1))
        (s.sub (s.mul v.data_2 w.data_0) (s.mul v.data_0 w.data_2))
        (s.sub (s.mul v.data_0 w.data_1) (s.mul v.data_1 w.data_0))
  apply-IsFinite v (scales k) = scale-IsFinite v k
  apply-IsFinite v (scale_assigns k) =
      IfOk-assert IsFinite (finite k) (scale s finite sqrt v k) (λ h. scale-IsFinite v k)
  apply-IsFinite v (divs_scalar k) = div_scalar-IsFinite v k
  apply-IsFinite v (div_assigns k) =
      IfOk-assert IsFinite (finite k) (div_scalar s finite sqrt v k) (λ h. div_scalar-IsFinite v k)
  apply-IsFinite v (scaled_by k) =
      IfOk-assert IsFinite (finite k)
        (vector s finite sqrt (s.mul v.data_0 k) (s.mul v.data_1 k) (s.mul v.data_2 k))
        (λ h. vector-IsFinite (s.mul v.data_0 k) (s.mul v.data_1 k) (s.mul v.data_2 k))
  apply-IsFinite v normalizes = div_scalar-IsFinite v (length s finite sqrt v)

  -- A vector whose length divides to no finite first coordinate has no normal: the call aborts.
  pub normal_aborts :
      (v : Vector s finite sqrt)
      → finite (s.div v.data_0 (length s finite sqrt v)) ≡ false
      → normal s finite sqrt v ≡ abort
  unfolding normal div_scalar
  normal_aborts v h =
      elim (finite (length s finite sqrt v))
        as (λ b.
          (assert b
            >> vector s finite sqrt (s.div v.data_0 (length s finite sqrt v))
                (s.div v.data_1 (length s finite sqrt v)) (s.div v.data_2 (length s finite sqrt v)))
          ≡ abort) [ true ↦ rw h refl | false ↦ refl ]
