-- ===== src/Interzord/Bounds.antt =====
-- The share of the way that an Interzord has gone.
use mathlib.Core.Path.{subst}
use ren_general.Base.{ℕ, ◌≡◌, refl, sym, inl, inr, true, some, Bool-cases}
use ren_general.Exception.{Result, ok}
use ren_general.Scalar.{Scalar, Ordered, min}
use ren_general.Interzord.{
  Interpolater, linear, exponential, step, parabola, sine_speed_down, interpolate, Interzord,
  assign_value, update, jump,
}

module _ (s : Scalar) (sin : s.F → s.F) (pow : s.F → s.F → s.F) (o : Ordered s) where
  abbrev pub AtMostOne : Interzord s sin pow → Type 0
  AtMostOne z = s.leb z.total_percent (s.ratio 1 1) ≡ true

  min_bound : (a b : s.F) → s.leb (min s a b) b ≡ true
  min_bound a b = elim (Bool-cases (s.leb a b)) [ inl e ↦ rw e e | inr e ↦ rw e (o.le_refl b) ]

  interpolate_bound :
      (kind : Interpolater) (start current end percent total : s.F)
      → s.leb total (s.ratio 1 1) ≡ true
      → s.leb (interpolate s sin pow kind start current end percent total).1 (s.ratio 1 1) ≡ true
  unfolding interpolate
  interpolate_bound linear start current end percent total h =
      min_bound (s.add total percent) (s.ratio 1 1)
  interpolate_bound exponential start current end percent total h = h
  interpolate_bound step start current end percent total h =
      min_bound (s.add total percent) (s.ratio 1 1)
  interpolate_bound parabola start current end percent total h =
      min_bound (s.add total percent) (s.ratio 1 1)
  interpolate_bound sine_speed_down start current end percent total h =
      min_bound (s.add total percent) (s.ratio 1 1)

  pub data Call : Type 0 where
    updates assigns : s.F → Call
    jumps : Call

  unfoldable pub act : Interzord s sin pow → Call → Result (Interzord s sin pow)
  act z (updates percent) = update s sin pow z percent
  act z (assigns value) = ok (assign_value s sin pow z value)
  act z jumps = ok (jump s sin pow z)

  -- For an ordered scalar where 0 is at most 1, an Interzord with an interpolater that has gone at
  -- most the whole way still returns from every call, has gone at most the whole way, and has the
  -- same interpolater.
  pub act-AtMostOne :
      (z : Interzord s sin pow) (p : ℕ) (kind : Interpolater) (c : Call)
      → s.leb (s.ratio 0 1) (s.ratio 1 1) ≡ true
      → z.zord ≡ some (p, kind)
      → AtMostOne z
      → (z' : Interzord s sin pow) × (act z c ≡ ok z') × AtMostOne z' × (z'.zord ≡ some (p, kind))
  unfolding act update assign_value jump
  act-AtMostOne z p kind (updates percent) h e b =
      let next = interpolate s sin pow kind z.start z.current z.end percent z.total_percent in
      (
        record z { current = next.0; total_percent = next.1 },
        subst
            (λ owned.
              update s sin pow (record z { zord = owned }) percent
              ≡ ok (record z { current = next.0; total_percent = next.1; zord = owned }))
            (sym e) refl,
        interpolate_bound kind z.start z.current z.end percent z.total_percent b,
        e,
      )
  act-AtMostOne z p kind (assigns value) h e b = (assign_value s sin pow z value, refl, h, e)
  act-AtMostOne z p kind jumps h e b = (jump s sin pow z, refl, o.le_refl (s.ratio 1 1), e)
