-- ===== src/Rotation/Angle/Bounds.antt =====
-- The loops of FixAngle, and the choice of ShortestChange.
use mathlib.Core.Path.{subst}
use ren_general.Base.{
  ℕ, zero, suc, ◌<◌, ◌≡◌, refl, sym, ap, ◌∙◌, ◌⊎◌, inl, inr, Bool, true, false, not, arith,
  Bool-cases,
}
use ren_general.Exception.{ok, out_of_fuel, ◌>>=◌}
use ren_general.Scalar.{Scalar, Ordered, ltb}
use ren_general.Rotation.Angle.{Angle, full, fix_angle, lower, raise, shortest, shortest_change}

-- What float arithmetic gives on the values of a range, near enough to 0 that 360 is not lost in
-- rounding: taking a turn from a value above 360 and adding one to a value below 0 makes progress,
-- passes neither 0 nor 360, and stays in the range. Nothing is asked of the values outside it.
pub record Turning (s : Scalar) (near : s.F → Bool) (above below : s.F → ℕ) : Type 0 where
  pub sub_near :
      (v : s.F)
      → near v ≡ true
      → ltb s (s.ratio 360 1) v ≡ true
      → near (s.sub v (s.ratio 360 1)) ≡ true
  pub sub_progress :
      (v : s.F)
      → near v ≡ true
      → ltb s (s.ratio 360 1) v ≡ true
      → above (s.sub v (s.ratio 360 1)) < above v
  pub sub_positive :
      (v : s.F)
      → near v ≡ true
      → ltb s (s.ratio 360 1) v ≡ true
      → ltb s (s.sub v (s.ratio 360 1)) (s.ratio 0 1) ≡ false
  pub add_near :
      (v : s.F)
      → near v ≡ true
      → ltb s v (s.ratio 0 1) ≡ true
      → near (s.add v (s.ratio 360 1)) ≡ true
  pub add_progress :
      (v : s.F)
      → near v ≡ true
      → ltb s v (s.ratio 0 1) ≡ true
      → below (s.add v (s.ratio 360 1)) < below v
  pub add_most :
      (v : s.F)
      → near v ≡ true
      → ltb s v (s.ratio 0 1) ≡ true
      → s.leb (s.add v (s.ratio 360 1)) (s.ratio 360 1) ≡ true

not-false : (b : Bool) → not b ≡ false → b ≡ true
not-false true h = refl
not-false false h = sym h

module _ (s : Scalar) (finite : s.F → Bool) where
  lower-absorbed :
      (v : s.F) (fuel : ℕ)
      → ltb s (full s finite) v ≡ true
      → s.sub v (full s finite) ≡ v
      → lower s finite fuel v ≡ out_of_fuel
  unfolding lower
  lower-absorbed v zero above same = refl
  lower-absorbed v (suc fuel) above same =
      rw above (ap (lower s finite fuel) same ∙ lower-absorbed v fuel above same)

  -- A value above 360 that is so large that 360 is lost on it in rounding is never fixed: the loop
  -- runs out of any fuel.
  pub fix_angle-absorbed :
      (v : s.F) (fuel : ℕ)
      → ltb s (full s finite) v ≡ true
      → s.sub v (full s finite) ≡ v
      → fix_angle s finite fuel v ≡ out_of_fuel
  unfolding fix_angle
  fix_angle-absorbed v fuel above same =
      ap (λ r. r >>= raise s finite fuel) (lower-absorbed v fuel above same)

  module _ (near : s.F → Bool) (above below : s.F → ℕ) (turning : Turning s near above below) where
    lower_ends :
        (fuel : ℕ) (v : s.F)
        → above v < fuel
        → near v ≡ true
        → (r : s.F) × (lower s finite fuel v ≡ ok r)
          × (s.leb r (full s finite) ≡ true)
          × ((r ≡ v) ⊎ (ltb s r (s.ratio 0 1) ≡ false))
    unfolding lower
    lower_ends zero v h n = ground (arith, h)
    lower_ends (suc fuel) v h n = elim (Bool-cases (ltb s (s.ratio 360 1) v)) [
      | inl e ↦
          let less = turning.sub_progress v n e in
          let (r, runs, most, from) =
            lower_ends fuel (s.sub v (s.ratio 360 1)) (omega arith) (turning.sub_near v n e) in
          (
            r,
            rw e runs,
            most,
            inr (elim from [
              | inl same ↦ ap (λ x. ltb s x (s.ratio 0 1)) same ∙ turning.sub_positive v n e
              | inr high ↦ high
            ]),
          )
      | inr e ↦ (v, rw e refl, not-false (s.leb v (s.ratio 360 1)) e, inl refl)
    ]

    raise_ends :
        (fuel : ℕ) (v : s.F)
        → below v < fuel
        → s.leb v (full s finite) ≡ true
        → near v ≡ true
        → (r : s.F) × (raise s finite fuel v ≡ ok r)
          × (ltb s r (s.ratio 0 1) ≡ false)
          × (s.leb r (full s finite) ≡ true)
    unfolding raise
    raise_ends zero v h k n = ground (arith, h)
    raise_ends (suc fuel) v h k n = elim (Bool-cases (ltb s v (s.ratio 0 1))) [
      | inl e ↦
          let less = turning.add_progress v n e in
          let (r, runs, high, most) =
            raise_ends fuel (s.add v (s.ratio 360 1)) (omega arith) (turning.add_most v n e)
              (turning.add_near v n e) in
          (r, rw e runs, high, most)
      | inr e ↦ (v, rw e refl, e, k)
    ]

    raise_positive :
        (fuel : ℕ) (v : s.F)
        → 0 < fuel
        → ltb s v (s.ratio 0 1) ≡ false
        → raise s finite fuel v ≡ ok v
    unfolding raise
    raise_positive zero v h e = ground (arith, h)
    raise_positive (suc fuel) v h e = rw e refl

    -- For a value of a range in which the steps of both loops make progress and stay, and fuel above
    -- its measures for both loops, FixAngle ends with a value from 0 to 360.
    pub fix_angle_lem :
        (fuel : ℕ) (v : s.F)
        → near v ≡ true
        → above v < fuel
        → below v < fuel
        → (r : s.F) × (fix_angle s finite fuel v ≡ ok r)
          × (s.leb (s.ratio 0 1) r ≡ true)
          × (s.leb r (full s finite) ≡ true)
    unfolding fix_angle
    fix_angle_lem fuel v n h k =
        let (r, runs, most, from) = lower_ends fuel v h n in
        let first = ap (λ x. x >>= raise s finite fuel) runs in
        elim from [
          | inr high ↦ (
            r,
            first ∙ raise_positive fuel r (omega arith) high,
            not-false (s.leb (s.ratio 0 1) r) high,
            most,
          )
          | inl same ↦
              let enough : below r < fuel = subst (λ x. below x < fuel) (sym same) k in
              let still = subst (λ x. near x ≡ true) (sym same) n in
              let (t, raises, high, most') = raise_ends fuel r enough most still in
              (t, first ∙ raises, not-false (s.leb (s.ratio 0 1) t) high, most')
        ]

  -- The choice of the shortest of three changes, by the order of their sizes.
  abbrev pub IsLeast : (fabs : s.F → s.F) → (c1 c2 c3 r : s.F) → Type 0
  IsLeast fabs c1 c2 c3 r =
      ((r ≡ c1) ⊎ ((r ≡ c2) ⊎ (r ≡ c3)))
      × (s.leb (fabs r) (fabs c1) ≡ true)
      × (s.leb (fabs r) (fabs c2) ≡ true)
      × (s.leb (fabs r) (fabs c3) ≡ true)

  shortest-IsLeast :
      (o : Ordered s) (fabs : s.F → s.F) (c1 c2 c3 : s.F)
      → IsLeast fabs c1 c2 c3 (shortest s finite fabs c1 c2 c3)
  unfolding shortest
  shortest-IsLeast o fabs c1 c2 c3 =
      let a = fabs c1 in
      let b = fabs c2 in
      let c = fabs c3 in
      elim (Bool-cases (s.leb b a)) [
        | inr ba ↦ elim (Bool-cases (s.leb c a)) [
          | inr ca ↦ rw (ba, ca) (inl refl, o.le_refl a, o.le_total b a ba, o.le_total c a ca)
          | inl ca ↦ elim (Bool-cases (s.leb c b)) [
            | inr cb ↦
                let bc = o.le_total c b cb in
                rw (ba, ca, cb) (inr (inl refl), o.le_trans b c a bc ca, o.le_refl b, bc)
            | inl cb ↦ rw (ba, ca, cb) (inr (inr refl), ca, cb, o.le_refl c)
          ]
        ]
        | inl ba ↦ elim (Bool-cases (s.leb c b)) [
          | inr cb ↦ rw (ba, cb) (inr (inl refl), ba, o.le_refl b, o.le_total c b cb)
          | inl cb ↦ rw (ba, cb) (inr (inr refl), o.le_trans c b a cb ba, cb, o.le_refl c)
        ]
      ]

  -- For an ordered scalar, ShortestChange is one of the three changes to the goal: without a turn, with
  -- one taken away, with one added. None of the three is smaller in size.
  pub shortest_change-IsLeast :
      (o : Ordered s) (fabs : s.F → s.F) (a goal : Angle s finite)
      → IsLeast fabs
          (s.sub goal.degrees a.degrees)
          (s.sub (s.sub goal.degrees (full s finite)) a.degrees)
          (s.add (s.sub goal.degrees a.degrees) (full s finite))
          (shortest_change s finite fabs a goal)
  unfolding shortest_change
  shortest_change-IsLeast o fabs a goal = shortest-IsLeast o fabs _ _ _
