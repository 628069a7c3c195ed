-- ===== src/InputOutput/Standard.antt =====
-- inputoutput.cxx: StandardStreamTag and StandardErrorStreamTag, as built for a system that is not
-- Windows. std::cout, std::cin and std::cerr are streams as in Memory; whether the device behind an
-- output accepts what was written to it so far is a parameter.
pub mod Failure
pub mod Errors
use ren_general.Base.{String, text, ℕ, Bool, true, false, if◌then◌else◌, List}
use ren_general.Exception.{Error, system, Result, ok, throw, ◌>>=◌}
use ren_general.Scalar.Exact.{ℤ}
use ren_general.InputOutput.Memory
use ren_general.InputOutput.Memory.{MemoryStream, good}

pub record StandardStream : Type 0 where
  pub output : MemoryStream
  pub input : MemoryStream

module _ (accepts : String → Bool) where
  abbrev pub settle : MemoryStream → MemoryStream
  settle m = if accepts m.buffer then m else record m { fail = true }

  -- `CheckOutput` of StandardStreamTag.
  unfoldable pub check_output : StandardStream → Result (Unit {0})
  check_output s =
      if good s.output then ok tt else throw (system (text "Standard output has failed!"))

  abbrev pub written : StandardStream → (MemoryStream → MemoryStream) → Result StandardStream
  unfolding check_output
  written s f = check_output s >>= λ _. ok (record s { output = settle (f s.output) })

  unfoldable pub flush : StandardStream → Result StandardStream
  unfolding check_output
  flush s = written s (λ m. m)

  unfoldable pub write_raw : StandardStream → String → Result StandardStream
  unfolding check_output
  write_raw s bytes = written s (λ m. Memory.write_raw m bytes)

  unfoldable pub write_int : StandardStream → ℤ → Result StandardStream
  unfolding check_output
  write_int s n = written s (λ m. Memory.write_int m n)

  unfoldable pub write_long : StandardStream → ℤ → Result StandardStream
  unfolding check_output
  write_long s n = written s (λ m. Memory.write_long m n)

  unfoldable pub write_unsigned : StandardStream → ℕ → Result StandardStream
  unfolding check_output
  write_unsigned s n = written s (λ m. Memory.write_unsigned m n)

  unfoldable pub write_string : StandardStream → String → Result StandardStream
  unfolding check_output
  write_string s bytes = written s (λ m. Memory.write_string m bytes)

  unfoldable pub write_hex : StandardStream → List ℕ → Result StandardStream
  unfolding check_output
  write_hex s bytes = written s (λ m. Memory.write_hex m bytes)

-- `CheckInput`.
unfoldable pub check_input : StandardStream → Result (Unit {0})
check_input s = if good s.input then ok tt else throw (system (text "Standard input has failed!"))

unfoldable pub read_raw : StandardStream → ℕ → Result (StandardStream × String)
unfolding check_input
read_raw s n = check_input s >>= λ _.
    let (m, bytes) = Memory.read_raw s.input n in ok (record s { input = m }, bytes)

unfoldable pub read_line :
    StandardStream → (data_before : String) → Result (StandardStream × String)
unfolding check_input
read_line s data_before = check_input s >>= λ _.
    let (m, bytes) = Memory.read_line s.input data_before in ok (record s { input = m }, bytes)

-- `operator bool`.
unfoldable pub is_good : StandardStream → Bool
is_good s = good s.input
