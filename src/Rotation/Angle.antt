-- ===== src/Rotation/Angle.antt =====
-- rotation.cxx: Angle. `finite` is the test that the assertions make, !isnan and !isinf; the loops of
-- FixAngle run on fuel, and what is enough is said in Bounds. An operator with assignment gives what
-- the operator gives, as the new angle and as its result.
pub mod Bounds
use ren_general.Base.{ℕ, zero, suc, Bool, true, false, ◌&&◌, ◌||◌, if◌then◌else◌}
use ren_general.Exception.{Result, ok, out_of_fuel, ◌>>=◌, ◌>>◌, assert}
use ren_general.Scalar.{Scalar, ltb}
use ren_general.Vector.Flat.{FlatVector, flat_vector}

module _ (s : Scalar) (finite : s.F → Bool) where
  pub record Angle : Type 0 where
    pub degrees : s.F

  abbrev pub full : s.F
  full = s.ratio 360 1

  -- `while (Value > 360) Value -= 360;`.
  unfoldable pub lower : ℕ → s.F → Result s.F
  lower zero value = out_of_fuel
  lower (suc fuel) value =
      let rest = lower fuel (s.sub value full) in if ltb s full value then rest else ok value

  -- `while (Value < 0) Value += 360;`.
  unfoldable pub raise : ℕ → s.F → Result s.F
  raise zero value = out_of_fuel
  raise (suc fuel) value =
      let rest = raise fuel (s.add value full) in
      if ltb s value (s.ratio 0 1) then rest else ok value

  unfoldable pub fix_angle : ℕ → s.F → Result s.F
  unfolding lower raise
  fix_angle fuel value = lower fuel value >>= raise fuel

  abbrev pub fixed : ℕ → s.F → Result Angle
  unfolding fix_angle
  fixed fuel value = fix_angle fuel value >>= λ v. ok (record { degrees = v })

  unfoldable pub new : Angle
  new = record { degrees = s.ratio 0 1 }

  -- The assignment of a number, which the constructor from one calls behind its own assertion.
  unfoldable pub assign : ℕ → s.F → Result Angle
  unfolding fix_angle
  assign fuel operand = assert (finite operand) >> fixed fuel operand

  unfoldable pub from_degrees : ℕ → s.F → Result Angle
  unfolding assign
  from_degrees fuel value = assert (finite value) >> assign fuel value

  unfoldable pub negate : ℕ → Angle → Result s.F
  unfolding fix_angle
  negate fuel a = fix_angle fuel (s.add a.degrees (s.ratio 180 1))

  unfoldable pub add : ℕ → Angle → s.F → Result s.F
  unfolding fix_angle
  add fuel a operand = assert (finite operand) >> fix_angle fuel (s.add a.degrees operand)

  unfoldable pub sub : ℕ → Angle → s.F → Result s.F
  unfolding fix_angle
  sub fuel a operand = assert (finite operand) >> fix_angle fuel (s.sub a.degrees operand)

  unfoldable pub mul : ℕ → Angle → s.F → Result s.F
  unfolding fix_angle
  mul fuel a operand = assert (finite operand) >> fix_angle fuel (s.mul a.degrees operand)

  unfoldable pub div : ℕ → Angle → s.F → Result s.F
  unfolding fix_angle
  div fuel a operand = assert (finite operand) >> fix_angle fuel (s.div a.degrees operand)

  -- `Min >= Max` and the other tests compare the angles as numbers.
  unfoldable pub in_range : Angle → (low high : Angle) → Bool
  in_range a low high =
      if s.leb high.degrees low.degrees
        && (s.leb low.degrees a.degrees || s.leb a.degrees high.degrees)
      then true
      else if s.leb low.degrees a.degrees && s.leb a.degrees high.degrees
      then true
      else false

  -- The choice among the three changes.
  unfoldable pub shortest : (fabs : s.F → s.F) → (change_1 change_2 change_3 : s.F) → s.F
  shortest fabs change_1 change_2 change_3 =
      if ltb s (fabs change_1) (fabs change_2) && ltb s (fabs change_1) (fabs change_3)
      then change_1
      else if ltb s (fabs change_2) (fabs change_3)
      then change_2
      else change_3

  unfoldable pub shortest_change : (fabs : s.F → s.F) → Angle → (goal : Angle) → s.F
  unfolding shortest
  shortest_change fabs a goal =
      shortest fabs (s.sub goal.degrees a.degrees) (s.sub (s.sub goal.degrees full) a.degrees)
        (s.add (s.sub goal.degrees a.degrees) full)

module _ (s : Scalar) (finite : s.F → Bool) (sqrt : s.F → s.F) where
  -- 180.0 / Pi, with the digits of the source.
  abbrev pub to_degrees : s.F
  to_degrees = s.div (s.ratio 180 1) (s.ratio 3141592653589793238 1000000000000000000)

  unfoldable pub from_vector :
      (atan2 : s.F → s.F → s.F) → ℕ → FlatVector s finite sqrt → Result (Angle s finite)
  unfolding assign
  from_vector atan2 fuel v = assign s finite fuel (s.mul to_degrees (atan2 v.data_1 v.data_0))

  unfoldable pub rotate :
      (sin cos : s.F → s.F)
      → Angle s finite
      → FlatVector s finite sqrt
      → Result (FlatVector s finite sqrt)
  rotate sin cos a v =
      let radians =
        s.mul a.degrees (s.div (s.ratio 3141592653589793238 1000000000000000000) (s.ratio 180 1)) in
      flat_vector s finite sqrt
        (s.sub (s.mul v.data_0 (cos radians)) (s.mul v.data_1 (sin radians)))
        (s.add (s.mul v.data_0 (sin radians)) (s.mul v.data_1 (cos radians)))
