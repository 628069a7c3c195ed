-- ===== src/InputOutput/File.antt =====
-- inputoutput.cxx: FileOutput, as built for a system that is not Windows. What the C library does is
-- given by parameters: fopen, the contents of the file that is opened, if it can be; how many bytes
-- of a text a FILE takes behind its contents; and how many bytes of them fflush gets into the file.
-- The C library's open FILEs are a store by address; a FileOutput holds the address of one.
pub mod Failure
pub mod Ownership
pub mod Input
use ren_general.Base.{
  String, text, ℕ, suc, ◌+◌, ◌-◌, ◌/◌, ◌%◌, ◌^◌, Bool, true, false, not, ◌&&◌, ◌||◌, Option, none,
  some, List, [], ◌∷◌, ◌++◌, ◌==◌, leb, if◌then◌else◌, length, take, is_empty,
}
use ren_general.Exception.{Error, system, Result, ok, throw, abort, out_of_fuel}
use ren_general.Scalar.Exact.{ℤ, pos, negsuc}
use ren_general.InputOutput.Format.{default_format, show_int, show_unsigned}
use ren_general.InputOutput.Format.Digits.{two_digits}

-- A FILE that is written to: the name that it was opened under, the contents of the file with what
-- the FILE has taken since, and what of them is known to be in the file, which is what was there when
-- it was opened or last flushed.
pub record Stream : Type 0 where
  pub filename : String
  pub contents : String
  pub in_file : String
  pub eof : Bool
  pub error : Bool

pub record Files : Type 0 where
  pub next : ℕ
  pub streams : ℕ → Option Stream

pub record FileOutput : Type 0 where
  pub file : Option ℕ

abbrev pub set : (ℕ → Option Stream) → ℕ → Option Stream → ℕ → Option Stream
set streams address s a = if a == address then s else streams a

-- `Mode & Erase` and `Mode & Append`.
abbrev pub open_mode : ℕ → String
open_mode mode =
    if mode % 2 == 1 then (if mode / 2 % 2 == 1 then text "wa" else text "w") else text "a"

-- The constructor, by what `fopen` gives.
abbrev pub open_result : Files → String → Option String → Files × Result FileOutput
open_result w filename none = (w, throw (system (text "Couldn't open file " ++ filename)))
open_result w filename (some contents) =
    let s : Stream = record {
      filename = filename;
      contents = contents;
      in_file = contents;
      eof = false;
      error = false;
    } in
    (
      record { next = suc w.next; streams = set w.streams w.next (some s) },
      ok (record { file = some w.next }),
    )

unfoldable pub new :
    (fopen : String → String → Option String) → Files → String → ℕ → Files × Result FileOutput
new fopen w filename mode = open_result w filename (fopen filename (open_mode mode))

-- The move constructor: the new object, and the other.
unfoldable pub move : FileOutput → FileOutput × FileOutput
move other = (record { file = other.file }, record { file = none })

-- The assignment from `other`: this object, and the other.
unfoldable pub assign : (this other : FileOutput) → FileOutput × FileOutput
assign this other = (record this { file = other.file }, record other { file = none })

-- The destructor. Closing an address that is not open is undefined behaviour, here a failure.
unfoldable pub destruct : Files → FileOutput → Result Files
destruct w this = elim this.file [
  | none ↦ ok w
  | some address ↦ elim (w.streams address) [
    | none ↦ abort
    | some s ↦ ok (record w { streams = set w.streams address none })
  ]
]

-- The conversion to size_t, of 64 bits.
abbrev pub as_size_t : ℤ → ℕ
as_size_t (pos n) = n % 2 ^ 64
as_size_t (negsuc n) = 2 ^ 64 - 1 - n % 2 ^ 64

-- The file tests of `CheckOutput`.
unfoldable pub check_output : Stream → Result (Unit {0})
check_output s =
    if s.eof
    then throw (system (text "Received end-of-file while writing to file."))
    else if s.error
    then throw (system (text "File is in the error state."))
    else ok tt

unfoldable pub check_write_result : Stream → ℕ → Result (Unit {0})
check_write_result s result =
    if leb result 0
    then (if s.error
        then throw (system (text "Encountered error while writing; write failed."))
        else if s.eof
        then throw (system (text "Received end-of-file while writing; write failed."))
        else ok tt)
    else ok tt

abbrev pub is_negative : ℤ → Bool
is_negative (pos n) = false
is_negative (negsuc n) = true

-- `if ((NewResult < 0) && (Result >= 0)) Result = NewResult`.
abbrev pub kept_result : (new_result result : ℤ) → ℤ
kept_result new_result result =
    if is_negative new_result && not (is_negative result) then new_result else result

-- What `%s` prints of a string.
abbrev pub c_string : String → String
c_string [] = []
c_string (c ∷ cs) = let rest = c_string cs in if c == 0 then [] else c ∷ rest

-- What comes after CheckOutput, which leaves the FILE as it was when it throws.
abbrev pub after_check :
    Stream → Result (Unit {0}) → Stream × Result (Unit {0}) → Stream × Result (Unit {0})
after_check s (ok t) call = call
after_check s (throw e) call = (s, throw e)
after_check s abort call = (s, abort)
after_check s out_of_fuel call = (s, out_of_fuel)

-- `fflush`: what of the contents is in the file then, of which the rest is lost, and whether that is
-- all of them.
abbrev pub fflush : (reached : String → ℕ) → Stream → Stream
fflush reached s = record s {
  contents = take (reached s.contents) s.contents;
  in_file = take (reached s.contents) s.contents;
  error = s.error || not (leb (length s.contents) (reached s.contents));
}

-- The FlushToken: the result of fflush is not looked at.
unfoldable pub flush : (reached : String → ℕ) → Stream → Stream × Result (Unit {0})
unfolding check_output
flush reached s = after_check s (check_output s) (fflush reached s, ok tt)

-- The call of fprintf and CheckWriteResult of its result, behind CheckOutput.
unfoldable pub print_result : Stream × ℤ → Stream × Result (Unit {0})
unfolding check_write_result
print_result (s', result) = (s', check_write_result s' (as_size_t result))

unfoldable pub raw_result : Stream × ℕ → Stream × Result (Unit {0})
unfolding check_write_result
raw_result (s', result) = (s', check_write_result s' result)

module _ (taken : (contents bytes : String) → ℕ) where
  -- What the device does with bytes, and whether it took them all.
  unfoldable pub deliver : Stream → String → Stream × Bool
  deliver s bytes =
      let whole = leb (length bytes) (taken s.contents bytes) in
      (
        record s {
          contents = s.contents ++ take (taken s.contents bytes) bytes;
          error = s.error || not whole;
        },
        whole,
      )

  -- `fwrite` of one object, and `fprintf`, which gives -1 on failure.
  unfoldable pub fwrite : Stream → String → Stream × ℕ
  unfolding deliver
  fwrite s bytes =
      let (s', whole) = deliver s bytes in
      (s', if whole then (if is_empty bytes then 0 else 1) else 0)

  unfoldable pub fprintf : Stream → String → Stream × ℤ
  unfolding deliver
  fprintf s bytes =
      let (s', whole) = deliver s bytes in (s', if whole then pos (length bytes) else negsuc 0)

  unfoldable pub printed : Stream → String → Stream × Result (Unit {0})
  unfolding check_output fprintf print_result
  printed s bytes = after_check s (check_output s) (print_result (fprintf s bytes))

  unfoldable pub write_raw : Stream → String → Stream × Result (Unit {0})
  unfolding check_output fwrite raw_result
  write_raw s bytes = after_check s (check_output s) (raw_result (fwrite s bytes))

  unfoldable pub write_char : Stream → ℕ → Stream × Result (Unit {0})
  unfolding printed
  write_char s c = printed s (c ∷ [])

  -- For int and long int.
  unfoldable pub write_int : Stream → ℤ → Stream × Result (Unit {0})
  unfolding printed
  write_int s n = printed s (show_int 64 default_format n)

  -- For unsigned int and long unsigned int.
  unfoldable pub write_unsigned : Stream → ℕ → Stream × Result (Unit {0})
  unfolding printed
  write_unsigned s n = printed s (show_unsigned default_format n)

  -- `%s` prints the bytes before the first that is 0.
  unfoldable pub write_string : Stream → String → Stream × Result (Unit {0})
  unfolding printed
  write_string s bytes = printed s (c_string bytes)

  -- The loop of the HexToken operator, which prints to stdout: the first negative result is kept.
  unfoldable pub write_hex_loop : Stream → ℤ → List ℕ → Stream × ℤ
  unfolding fprintf
  write_hex_loop out result [] = (out, result)
  write_hex_loop out result (b ∷ bytes) =
      let (out', new_result) = fprintf out (two_digits b) in
      write_hex_loop out' (kept_result new_result result) bytes

  -- The streams are those of stdout and of this object.
  unfoldable pub write_hex : (out s : Stream) → List ℕ → (Stream × Stream) × Result (Unit {0})
  unfolding check_write_result write_hex_loop
  write_hex out s bytes =
      let (out', result) = write_hex_loop out (pos 0) bytes in
      ((out', s), check_write_result s (as_size_t result))

-- An operator on the FILE at an address. That none is open there is undefined, here a failure.
abbrev pub at_stream :
    Files → ℕ → (Stream → Stream × Result (Unit {0})) → Option Stream → Files × Result (Unit {0})
at_stream w address operator none = (w, abort)
at_stream w address operator (some s) =
    let (s', result) = operator s in
    (record w { streams = set w.streams address (some s') }, result)

abbrev pub at_file :
    Files → (Stream → Stream × Result (Unit {0})) → Option ℕ → Files × Result (Unit {0})
at_file w operator none = (w, abort)
at_file w operator (some address) = at_stream w address operator (w.streams address)

-- An operator of a FileOutput, on its FILE: `assert(File != nullptr)`.
unfoldable pub through :
    Files → FileOutput → (Stream → Stream × Result (Unit {0})) → Files × Result (Unit {0})
through w this operator = at_file w operator this.file
