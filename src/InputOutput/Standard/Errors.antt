-- ===== src/InputOutput/Standard/Errors.antt =====
-- inputoutput.cxx: StandardErrorStreamTag, over std::cerr.
use ren_general.Base.{String, text, ℕ, Bool, true, if◌then◌else◌, List}
use ren_general.Exception.{system, Result, ok, throw, ◌>>=◌}
use ren_general.Scalar.Exact.{ℤ}
use ren_general.InputOutput.Memory
use ren_general.InputOutput.Memory.{MemoryStream, good}

pub record StandardErrorStream : Type 0 where
  pub output : MemoryStream

module _ (accepts : String → Bool) where
  abbrev pub settle : MemoryStream → MemoryStream
  settle m = if accepts m.buffer then m else record m { fail = true }

  -- `CheckOutput` of StandardErrorStreamTag.
  unfoldable pub check_output : StandardErrorStream → Result (Unit {0})
  check_output s =
      if good s.output then ok tt else throw (system (text "Standard error output has failed!"))

  abbrev pub written :
      StandardErrorStream → (MemoryStream → MemoryStream) → Result StandardErrorStream
  unfolding check_output
  written s f = check_output s >>= λ _. ok (record s { output = settle (f s.output) })

  unfoldable pub flush : StandardErrorStream → Result StandardErrorStream
  unfolding check_output
  flush s = written s (λ m. m)

  unfoldable pub write_raw : StandardErrorStream → String → Result StandardErrorStream
  unfolding check_output
  write_raw s bytes = written s (λ m. Memory.write_raw m bytes)

  unfoldable pub write_int : StandardErrorStream → ℤ → Result StandardErrorStream
  unfolding check_output
  write_int s n = written s (λ m. Memory.write_int m n)

  unfoldable pub write_long : StandardErrorStream → ℤ → Result StandardErrorStream
  unfolding check_output
  write_long s n = written s (λ m. Memory.write_long m n)

  unfoldable pub write_unsigned : StandardErrorStream → ℕ → Result StandardErrorStream
  unfolding check_output
  write_unsigned s n = written s (λ m. Memory.write_unsigned m n)

  unfoldable pub write_string : StandardErrorStream → String → Result StandardErrorStream
  unfolding check_output
  write_string s bytes = written s (λ m. Memory.write_string m bytes)

  unfoldable pub write_hex : StandardErrorStream → List ℕ → Result StandardErrorStream
  unfolding check_output
  write_hex s bytes = written s (λ m. Memory.write_hex m bytes)
