-- ===== src/Time.antt =====
-- time.cxx and time.h: Clock and Timer. The unsigned counters wrap at 2 ^ 32. `Paused` is an int
-- that starts at 0 and never falls below it, so it is a natural number, and `max(--Paused, 0)` is
-- the subtraction that stops at 0; it is taken not to reach 2 ^ 31.
pub mod Clock
pub mod Timer
pub mod Tests
