-- ===== src/Time/Tests.antt =====
-- The theorems at a clock and a timer over whole numbers.
use ren_general.Base.{◌≡◌, true, List, [], ◌∷◌, arith}
use ren_general.Scalar.Exact.{ℤ, pos, whole, leb_ℤ}
use ren_general.Time.Clock.{new, milliseconds, Call, advances, sets_to, pauses, unpauses, run}
use ren_general.Time.Clock.Counters.{run-unpaused}

abbrev history : List (Call whole)
history = advances 16 ∷ pauses ∷ sets_to 500 ∷ unpauses ∷ sets_to 600 ∷ []

run-unpaused_example :
    (run whole (new whole) history).unpaused ≡ milliseconds whole (run whole (new whole) history)
run-unpaused_example = run-unpaused whole history (omega arith)

add_grows : (a d : ℤ) → leb_ℤ (pos 0) d ≡ true → leb_ℤ a (whole.add a d) ≡ true
add_grows a d h = ground arith
