-- ===== src/Time/Timer.antt =====
-- time.cxx: class Timer. The clock's step is an argument of `update`.
use ren_general.Base.{◌≡◌, Bool, true, false, arith, if◌then◌else◌}
use ren_general.Scalar.{Scalar, ltb, Ordered}

module _ (s : Scalar) where
  pub record Timer : Type 0 where
    pub pause_time : s.F
    pub elapsed_time : s.F

  unfoldable pub new : Timer
  new = record { pause_time = s.ratio 0 1; elapsed_time = s.ratio 0 1 }

  unfoldable pub set_pause_time : Timer → s.F → Timer
  set_pause_time t new_pause_time = record {
    pause_time = new_pause_time;
    elapsed_time = s.add new_pause_time (s.ratio 1 100);
  }

  unfoldable pub set_update_frequency : Timer → s.F → Timer
  set_update_frequency t frequency =
      let pause_time = s.div (s.ratio 1 1) frequency in
      record { pause_time = pause_time; elapsed_time = s.add pause_time (s.ratio 1 100) }

  unfoldable pub update : s.F → Timer → Timer × Bool
  update step t =
      let elapsed_time = s.add t.elapsed_time step in
      if ltb s elapsed_time t.pause_time
      then (record t { elapsed_time = elapsed_time }, false)
      else (record t { elapsed_time = s.ratio 0 1 }, true)

  unfoldable pub percent : Timer → s.F
  percent t = s.div t.elapsed_time t.pause_time

  unfoldable pub elapsed : Timer → s.F
  elapsed t = t.elapsed_time

  unfoldable pub remaining : Timer → s.F
  remaining t = s.sub t.pause_time t.elapsed_time

  -- Rounded addition of what is not negative does not decrease a value.
  abbrev pub AddGrows : Type 0
  AddGrows = (a d : s.F) → s.leb (s.ratio 0 1) d ≡ true → s.leb a (s.add a d) ≡ true

  -- Behind SetPauseTime the first update whose step is not negative fires and sets the elapsed time
  -- to 0, for an ordered scalar where 0 is at most 0.01 and adding what is not negative does not
  -- decrease a value.
  pub update-set_pause_time :
      (t : Timer) (pause_time step : s.F)
      → Ordered s
      → AddGrows
      → s.leb (s.ratio 0 1) (s.ratio 1 100) ≡ true
      → s.leb (s.ratio 0 1) step ≡ true
      → update step (set_pause_time t pause_time)
        ≡ (record { pause_time = pause_time; elapsed_time = s.ratio 0 1 }, true)
  unfolding update set_pause_time
  update-set_pause_time t p d o grows small h = ground (
    arith,
    o.le_trans p (s.add p (s.ratio 1 100)) (s.add (s.add p (s.ratio 1 100)) d),
    grows p (s.ratio 1 100),
    grows (s.add p (s.ratio 1 100)) d,
  )
