-- ===== src/Interzord.antt =====
-- interzord.h: Interzord over float, and the interpolaters. `sin` and `pow` are those of math.h. An
-- interpolater that was allocated is its address and its class; `delete` puts its address on a log.
pub mod Bounds
pub mod Ownership
pub mod Tests
use ren_general.Base.{ℕ, Bool, true, false, Option, none, some, List, [], ◌∷◌, if◌then◌else◌}
use ren_general.Exception.{Result, ok, abort, ◌>>=◌}
use ren_general.Scalar.{Scalar, ltb, min}

-- The classes of the namespace Interpolaters.
pub data Interpolater : Type 0 where
  linear exponential step parabola sine_speed_down : Interpolater

module _ (s : Scalar) (sin : s.F → s.F) (pow : s.F → s.F → s.F) where
  -- Interpolate, on Current and TotalPercent.
  unfoldable pub interpolate :
      Interpolater → (start current end percent total_percent : s.F) → s.F × s.F
  interpolate linear start current end percent total_percent = (
    (if ltb s total_percent (s.ratio 1 1)
        then s.add current (s.mul (s.sub end start) percent)
        else end),
    min s (s.add total_percent percent) (s.ratio 1 1),
  )
  interpolate exponential start current end percent total_percent =
      (s.add current (s.mul (s.sub end current) percent), total_percent)
  interpolate step start current end percent total_percent = (
    (if ltb s total_percent (s.ratio 1 2) then start else end),
    min s (s.add total_percent percent) (s.ratio 1 1),
  )
  interpolate parabola start current end percent total_percent = (
    (if ltb s total_percent (s.ratio 1 1)
        then s.add start (
            s.mul (s.sub end start) (
              s.add
                (s.neg
                  (pow (s.sub (s.mul total_percent (s.ratio 2 1)) (s.ratio 1 1)) (s.ratio 2 1)))
                (s.ratio 1 1)))
        else start),
    min s (s.add total_percent percent) (s.ratio 1 1),
  )
  interpolate sine_speed_down start current end percent total_percent =
      let total = min s (s.add total_percent percent) (s.ratio 1 1) in
      (
        (if ltb s total (s.ratio 1 1)
            then s.add start (
                s.mul (s.sub end start)
                  (sin (s.mul (s.mul total (s.ratio 314159 100000)) (s.ratio 1 2))))
            else end),
        total,
      )

  pub record Interzord : Type 0 where
    pub start : s.F
    pub current : s.F
    pub end : s.F
    pub total_percent : s.F
    pub zord : Option (ℕ × Interpolater)

  -- The constructor without an argument; Type() is 0.
  unfoldable pub empty : Interzord
  empty = record {
    start = s.ratio 0 1;
    current = s.ratio 0 1;
    end = s.ratio 0 1;
    total_percent = s.ratio 0 1;
    zord = none;
  }

  unfoldable pub new : s.F → Option (ℕ × Interpolater) → Result Interzord
  new start_value none = abort
  new start_value (some z) = ok (record {
    start = start_value;
    current = start_value;
    end = start_value;
    total_percent = s.ratio 0 1;
    zord = some z;
  })

  -- The copy constructor.
  unfoldable pub copy : Interzord → Interzord
  copy z = record {
    start = z.start;
    current = z.current;
    end = z.end;
    total_percent = z.total_percent;
    zord = z.zord;
  }

  -- `delete Zord`, if there is one.
  unfoldable pub destruct : Interzord → List ℕ → List ℕ
  destruct z deleted = elim z.zord [ none ↦ deleted | some (p, kind) ↦ p ∷ deleted ]

  -- The assignment of another Interzord; `Copy` allocates at the address `fresh`.
  unfoldable pub assign : Interzord → Interzord → (fresh : ℕ) → List ℕ → Result (Interzord × List ℕ)
  unfolding destruct
  assign z other fresh deleted = elim other.zord [
    | none ↦ abort
    | some (p, kind) ↦ ok (record other { zord = some (fresh, kind) }, destruct z deleted)
  ]

  -- The assignment of a value.
  unfoldable pub assign_value : Interzord → s.F → Interzord
  assign_value z value = record z { start = z.current; end = value; total_percent = s.ratio 0 1 }

  unfoldable pub update : Interzord → s.F → Result Interzord
  unfolding interpolate
  update z percent = elim z.zord [
    | none ↦ abort
    | some (p, kind) ↦
        let (current, total) = interpolate kind z.start z.current z.end percent z.total_percent in
        ok (record z { current = current; total_percent = total })
  ]

  unfoldable pub target : Interzord → s.F
  target z = z.end

  unfoldable pub jump : Interzord → Interzord
  jump z = record z { total_percent = s.ratio 1 1; current = z.end }
