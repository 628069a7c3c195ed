-- ===== src/Vector/Equality.antt =====
-- The equalities: that of Vector compares the coordinates, that of FlatVector one float too many.
use ren_general.Base.{◌≡◌, arith, refl, Bool, true, false, not, ◌&&◌, ◌||◌, if◌then◌else◌}
use ren_general.Scalar.{Scalar, eqb, Ordered}
use ren_general.Vector
use ren_general.Vector.{Vector}
use ren_general.Vector.Flat
use ren_general.Vector.Flat.{FlatVector}

module _ (s : Scalar) (finite : s.F → Bool) (sqrt : s.F → s.F) where
  eqb_refl : Ordered s → (a : s.F) → eqb s a a ≡ true
  eqb_refl o a = rw (o.le_refl a) refl

  -- For an ordered scalar, a vector equals itself, and of two vectors always one of the two answers
  -- is given.
  pub eq_refl :
      (v w : Vector s finite sqrt)
      → Ordered s
      → (Vector.eq s finite sqrt v v ≡ true)
        × (Vector.ne s finite sqrt v w ≡ not (Vector.eq s finite sqrt v w))
  unfolding Vector.eq Vector.ne
  eq_refl v w o = (
    rw (eqb_refl o v.data_0, eqb_refl o v.data_1, eqb_refl o v.data_2) refl,
    opposite (eqb s v.data_0 w.data_0) (eqb s v.data_1 w.data_1) (eqb s v.data_2 w.data_2),
  )
    where
      opposite :
          (a b c : Bool)
          → (if not a || (not b || not c) then true else false)
            ≡ not (if a && (b && c) then true else false)
      opposite a b c = ground arith

  -- For an ordered scalar, whether a flat vector equals itself depends on the float that stands
  -- behind it in memory: it does exactly where that float equals its second coordinate.
  pub eq_beyond :
      (beyond : s.F) (v : FlatVector s finite sqrt)
      → Ordered s
      → Flat.eq s finite sqrt beyond v v ≡ eqb s beyond v.data_1
  unfolding Flat.eq
  eq_beyond beyond v o = rw (eqb_refl o v.data_0, eqb_refl o v.data_1) refl
