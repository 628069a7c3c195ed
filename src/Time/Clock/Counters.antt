-- ===== src/Time/Clock/Counters.antt =====
-- What the counters of the clock hold.
use ren_general.Base.{ℕ, ◌+◌, ◌%◌, ◌<◌, ◌≡◌, refl, ◌∙◌, Bool, true, false, List, [], ◌∷◌, arith}
use ren_general.Scalar.{Scalar}
use ren_general.Time.Clock.{
  word, minus, Clock, new, update_difference, update_absolute, step, milliseconds, pause, unpause,
  Call, advances, sets_to, pauses, unpauses, act, run,
}

-- A time handed in is an unsigned int.
abbrev pub IsWord : {s : Scalar} → Call s → Type 0
IsWord (advances d) = d < word
IsWord (sets_to t) = t < word
IsWord pauses = Unit {0}
IsWord unpauses = Unit {0}

module _ (s : Scalar) where
  abbrev pub Words : List (Call s) → Type 0
  Words [] = Unit {0}
  Words (e ∷ es) = IsWord e × Words es

  abbrev Equal : Clock s → Type 0
  Equal c = (c.unpaused ≡ c.current_time) × (c.current_time < word)

  act-Equal : (c : Clock s) (e : Call s) → IsWord e → Equal c → Equal (act s c e)
  unfolding update_difference update_absolute pause unpause
  act-Equal c (advances d) w q = ground arith
  act-Equal c (sets_to t) w q = ground arith
  act-Equal c pauses w q = q
  act-Equal c unpauses w q = q

  run-Equal : (c : Clock s) (es : List (Call s)) → Words es → Equal c → Equal (run s c es)
  unfolding run
  run-Equal c [] w q = q
  run-Equal c (e ∷ es) w q = run-Equal (act s c e) es w.1 (act-Equal c e w.0 q)

  -- In every history of calls on a new clock, whose arguments are within unsigned int, the count of
  -- unpaused milliseconds is the current time, pauses or not.
  pub run-unpaused :
      (es : List (Call s))
      → Words es
      → (run s (new s) es).unpaused ≡ milliseconds s (run s (new s) es)
  unfolding new milliseconds
  run-unpaused es w = (run-Equal (new s) es w (refl, omega arith)).0

  -- A clock that is not paused, then is paused once, told the time, resumed and told the time
  -- again, counts everything since before the pause as unpaused.
  pub resume-unpaused :
      (c : Clock s) (during after : ℕ)
      → c.paused ≡ 0
      → (update_absolute s (unpause s (update_absolute s (pause s c) during)) after).unpaused
        ≡ (c.unpaused + minus after c.current_time) % word
  unfolding update_absolute pause unpause
  resume-unpaused c during after h = ground arith

  abbrev pub is_unpause : Call s → Bool
  is_unpause unpauses = true
  is_unpause _ = false

  -- No call of the list is Unpause.
  abbrev pub StaysPaused : List (Call s) → Type 0
  StaysPaused [] = Unit {0}
  StaysPaused (e ∷ es) = (is_unpause e ≡ false) × StaysPaused es

  act-paused :
      (c : Clock s) (e : Call s)
      → 0 < c.paused
      → is_unpause e ≡ false
      → let c' = act s c e in
        (c'.current_time ≡ c.current_time)
        × (c'.last_time ≡ c.last_time)
        × (c'.unpaused ≡ c.unpaused)
        × (0 < c'.paused)
  unfolding update_difference update_absolute pause
  act-paused c (advances d) p h = ground arith
  act-paused c (sets_to t) p h = ground arith
  act-paused c pauses p h = (refl, refl, refl, omega arith)
  act-paused c unpauses p h = cc

  -- While it is paused the clock stands still: whatever is called but Unpause, the times stay and
  -- the step is zero.
  pub run-paused :
      (c : Clock s) (es : List (Call s))
      → 0 < c.paused
      → StaysPaused es
      → let c' = run s c es in
        (c'.current_time ≡ c.current_time)
        × (c'.last_time ≡ c.last_time)
        × (c'.unpaused ≡ c.unpaused)
        × (step s c' ≡ s.ratio 0 1)
  unfolding run step
  run-paused c [] p h = (refl, refl, refl, ground arith)
  run-paused c (e ∷ es) p h =
      let (now, last, un, still) = act-paused c e p h.0 in
      let (now', last', un', stop) = run-paused (act s c e) es still h.1 in
      (now' ∙ now, last' ∙ last, un' ∙ un, stop)
