-- ===== src/Range/Bounds.antt =====
-- A range keeps its ends in order, and what its tests say of values and of other ranges.
use mathlib.Core.Bool.{true≢false}
use ren_general.Base.{◌≡◌, refl, sym, ◌∙◌, inl, inr, Bool, true, false, ◌&&◌, Bool-cases, arith}
use ren_general.Scalar
use ren_general.Scalar.{Scalar, Ordered, ltb}
use ren_general.Range.{
  Range, new, include, including, expand, contract, contains, intersects, constrain,
}

module _ (s : Scalar) (o : Ordered s) where
  abbrev pub IsValid : Range s → Type 0
  IsValid r = s.leb r.min r.max ≡ true

  min_left : (a b : s.F) → s.leb (Scalar.min s a b) a ≡ true
  min_left a b = elim (Bool-cases (s.leb a b)) [
    | inl e ↦ rw e (o.le_refl a)
    | inr e ↦ rw e (o.le_total a b e)
  ]

  min_right : (a b : s.F) → s.leb (Scalar.min s a b) b ≡ true
  min_right a b = elim (Bool-cases (s.leb a b)) [ inl e ↦ rw e e | inr e ↦ rw e (o.le_refl b) ]

  max_left : (a b : s.F) → s.leb a (Scalar.max s a b) ≡ true
  max_left a b = elim (Bool-cases (s.leb b a)) [
    | inl e ↦ rw e (o.le_refl a)
    | inr e ↦ rw e (o.le_total b a e)
  ]

  max_right : (a b : s.F) → s.leb b (Scalar.max s a b) ≡ true
  max_right a b = elim (Bool-cases (s.leb b a)) [ inl e ↦ rw e e | inr e ↦ rw e (o.le_refl b) ]

  min-max : (a b : s.F) → s.leb (Scalar.min s a b) (Scalar.max s a b) ≡ true
  min-max a b = o.le_trans (Scalar.min s a b) a (Scalar.max s a b) (min_left a b) (max_left a b)

  pub data Call : Type 0 where
    includes includes_too expands contracts : s.F → Call
    renews : s.F → s.F → Call

  unfoldable pub adjust : Range s → Call → Range s
  adjust r (includes a) = include s r a
  adjust r (includes_too a) = including s r a
  adjust r (expands a) = expand s r a
  adjust r (contracts a) = contract s r a
  adjust r (renews a b) = new s a b

  -- For an ordered scalar, the constructor and the operations that change a range keep Min at most
  -- Max.
  pub adjust-IsValid : (r : Range s) (c : Call) → IsValid r → IsValid (adjust r c)
  unfolding adjust include including expand contract new
  adjust-IsValid r (includes a) h =
      o.le_trans (Scalar.min s r.min a) r.min (Scalar.max s r.max a) (min_left r.min a)
        (o.le_trans r.min r.max (Scalar.max s r.max a) h (max_left r.max a))
  adjust-IsValid r (includes_too a) h = min-max (Scalar.min s r.min a) (Scalar.max s r.max a)
  adjust-IsValid r (expands a) h =
      min-max (Scalar.min s r.min (s.add r.min a)) (Scalar.max s r.max (s.add r.max a))
  adjust-IsValid r (contracts a) h =
      max_right (Scalar.min s r.max (s.add r.max a))
        (Scalar.min s (Scalar.max s r.min (s.add r.min a)) r.max)
  adjust-IsValid r (renews a b) h = min-max a b

  pub and_left : (a b : Bool) → (a && b) ≡ true → a ≡ true
  and_left a b h = ground arith

  pub and_right : (a b : Bool) → (a && b) ≡ true → b ≡ true
  and_right a b h = ground arith

  -- A value of the range stays as it is.
  constrain_same : (r : Range s) (a : s.F) → contains s r a ≡ true → constrain s r a ≡ a
  unfolding constrain contains
  constrain_same r a h =
      rw (and_right (s.leb r.min a) (s.leb a r.max) h, and_left (s.leb r.min a) (s.leb a r.max) h)
        refl

  constrain_lem : (r : Range s) (a : s.F) → IsValid r → contains s r (constrain s r a) ≡ true
  unfolding constrain contains
  constrain_lem r a h = rw (max_right (Scalar.min s a r.max) r.min, below) refl
    where
      below : s.leb (Scalar.max s (Scalar.min s a r.max) r.min) r.max ≡ true
      below = elim (Bool-cases (s.leb r.min (Scalar.min s a r.max))) [
        | inl e ↦ rw e (min_right a r.max)
        | inr e ↦ rw e h
      ]

  -- For an ordered scalar and a range with Min at most Max, constraining a value to the range gives
  -- a value of the range, which constraining leaves as it is.
  pub constrain-contains :
      (r : Range s) (a : s.F)
      → IsValid r
      → (contains s r (constrain s r a) ≡ true)
        × (constrain s r (constrain s r a) ≡ constrain s r a)
  constrain-contains r a h =
      (constrain_lem r a h, constrain_same r (constrain s r a) (constrain_lem r a h))

  -- For an ordered scalar, a range with a value included contains that value, and every value that
  -- it contained before.
  pub include-contains :
      (r : Range s) (a b : s.F)
      → contains s r b ≡ true
      → (contains s (include s r a) a ≡ true) × (contains s (include s r a) b ≡ true)
  unfolding include contains
  include-contains r a b h = (
    rw (min_right r.min a, max_right r.max a) refl,
    rw
        (
          o.le_trans (Scalar.min s r.min a) r.min b (min_left r.min a)
              (and_left (s.leb r.min b) (s.leb b r.max) h),
          o.le_trans b r.max (Scalar.max s r.max a) (and_right (s.leb r.min b) (s.leb b r.max) h)
              (max_left r.max a),
        )
        refl,
  )

  -- For an ordered scalar, of two ranges that meet in one value, the lower with Min at most Max and
  -- the upper with Max above Min, the lower intersects the upper, and the upper does not intersect
  -- the lower.
  pub intersects_touching :
      (r q : Range s)
      → IsValid r
      → r.max ≡ q.min
      → s.leb q.max q.min ≡ false
      → (intersects s r q ≡ true) × (intersects s q r ≡ false)
  unfolding intersects
  intersects_touching r q h e f = (rw (apart, meets) refl, rw back refl)
    where
      back : s.leb r.max q.min ≡ true
      back = rw e (o.le_refl q.min)

      meets : s.leb q.min r.max ≡ true
      meets = rw e (o.le_refl q.min)

      apart : s.leb q.max r.min ≡ false
      apart = elim (Bool-cases (s.leb q.max r.min)) [
        | inl k ↦ absurd (
            true≢false
              (sym (o.le_trans q.max r.max q.min (o.le_trans q.max r.min r.max k h) back) ∙ f))
        | inr k ↦ k
      ]
