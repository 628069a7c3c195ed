-- ===== src/Time/Clock.antt =====
-- time.cxx: class Clock.
pub mod Counters
use ren_general.Base.{
  ℕ, zero, suc, ◌+◌, ◌-◌, ◌%◌, ◌^◌, Bool, true, false, not, List, [], ◌∷◌, ◌==◌, if◌then◌else◌,
}
use ren_general.Scalar.{Scalar}

abbrev pub word : ℕ
word = 2 ^ 32

-- a - b on unsigned int.
abbrev pub minus : ℕ → ℕ → ℕ
minus a b = (a + word - b) % word

module _ (s : Scalar) where
  pub record Clock : Type 0 where
    pub time_step : s.F
    pub last_time : ℕ
    pub current_time : ℕ
    pub unpaused : ℕ
    pub paused : ℕ

  unfoldable pub new : Clock
  new = record {
    time_step = s.ratio 0 1;
    last_time = 0;
    current_time = 0;
    unpaused = 0;
    paused = 0;
  }

  -- The part that both updates share, once CurrentTime is set.
  abbrev elapse : Clock → ℕ → Clock
  elapse c now =
      let difference = minus now c.current_time in
      record c {
        last_time = c.current_time;
        current_time = now;
        time_step = s.div (s.ratio difference 1) (s.ratio 1000 1);
        unpaused = (c.unpaused + difference) % word;
      }

  unfoldable pub update_difference : Clock → ℕ → Clock
  update_difference c step =
      if not (c.paused == 0) then c else elapse c ((c.current_time + step) % word)

  unfoldable pub update_absolute : Clock → ℕ → Clock
  update_absolute c milliseconds = if not (c.paused == 0) then c else elapse c milliseconds

  unfoldable pub step : Clock → s.F
  step c = if c.paused == 0 then c.time_step else s.ratio 0 1

  unfoldable pub milliseconds : Clock → ℕ
  milliseconds c = c.current_time

  unfoldable pub unpaused_seconds : Clock → s.F
  unpaused_seconds c = s.mul (s.ratio c.unpaused 1) (s.ratio 1 1000)

  unfoldable pub pause : Clock → Clock
  pause c = record c { paused = c.paused + 1 }

  unfoldable pub unpause : Clock → Clock
  unpause c = record c { paused = c.paused - 1 }

  pub data Call : Type 0 where
    advances sets_to : ℕ → Call
    pauses unpauses : Call

  abbrev pub act : Clock → Call → Clock
  act c (advances d) = update_difference c d
  act c (sets_to t) = update_absolute c t
  act c pauses = pause c
  act c unpauses = unpause c

  unfoldable pub run : Clock → List Call → Clock
  run c [] = c
  run c (e ∷ es) = run (act c e) es
