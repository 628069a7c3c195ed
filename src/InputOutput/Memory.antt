-- ===== src/InputOutput/Memory.antt =====
-- inputoutput.cxx: MemoryStream, over a std::stringstream: its text, the positions of writing and
-- reading in it, its flags, and the bits eof and fail of its state.
pub mod Lines
pub mod Flags
use ren_general.Base.{
  String, ℕ, zero, suc, ◌+◌, Bool, true, false, not, ◌&&◌, ◌||◌, Option, none, some, List, [], ◌∷◌,
  ◌++◌, ◌==◌, ltb, if◌then◌else◌, length, take, drop, index_of, is_empty,
}
use ren_general.Scalar.Exact.{ℤ}
use ren_general.InputOutput.Format.{
  Format, default_format, show_unsigned, show_int, pad, hex_loop, string_hex, extract_int,
  extract_unsigned, extract_bool,
}

pub record MemoryStream : Type 0 where
  pub buffer : String
  pub put : ℕ
  pub get : ℕ
  pub format : Format
  pub eof : Bool
  pub fail : Bool

-- The constructor with a size to reserve; `Buffer.str()` is a copy, which is then dropped.
unfoldable pub new : MemoryStream
new = record { buffer = []; put = 0; get = 0; format = default_format; eof = false; fail = false }

-- The constructor with initial data: writing begins at its start.
unfoldable pub from_data : String → MemoryStream
unfolding new
from_data initial = record new { buffer = initial }

-- `Buffer.good()`.
unfoldable pub good : MemoryStream → Bool
good m = not m.eof && not m.fail

-- What the stream buffer does with bytes.
abbrev pub overwrite : String → ℕ → String → String
overwrite buffer at s = take at buffer ++ (s ++ drop (at + length s) buffer)

-- Unformatted output: a stream that is not good takes nothing, and fails.
unfoldable pub write_raw : MemoryStream → String → MemoryStream
write_raw m s =
    if good m
    then record m { buffer = overwrite m.buffer m.put s; put = m.put + length s }
    else record m { fail = true }

-- Formatted output, which pads and resets the width.
abbrev pub insert : MemoryStream → String → MemoryStream
insert m s =
    if good m
    then record (write_raw m (pad m.format s)) { format = record m.format { width = 0 } }
    else record m { fail = true }

unfoldable pub write_int : MemoryStream → ℤ → MemoryStream
write_int m n = insert m (show_int 32 m.format n)

unfoldable pub write_long : MemoryStream → ℤ → MemoryStream
write_long m n = insert m (show_int 64 m.format n)

-- For unsigned int and long unsigned int.
unfoldable pub write_unsigned : MemoryStream → ℕ → MemoryStream
write_unsigned m n = insert m (show_unsigned m.format n)

unfoldable pub write_char : MemoryStream → ℕ → MemoryStream
write_char m c = insert m (c ∷ [])

unfoldable pub write_string : MemoryStream → String → MemoryStream
write_string m s = insert m s

-- The flags stay as the loop leaves them; only the width is reset.
unfoldable pub write_hex : MemoryStream → List ℕ → MemoryStream
write_hex m bytes =
    let f : Format = record m.format { fill = b'0' } in
    let f' : Format = if is_empty bytes then f else record f { hex = true; width = 0 } in
    if good m then record (write_raw m (hex_loop f bytes)) { format = f' } else record m {
      format = if is_empty bytes then f else record f { hex = true; width = 2 };
      fail = not (is_empty bytes) || m.fail;
    }

unfoldable pub write_string_hex : MemoryStream → (value pad_to_count : ℕ) → MemoryStream
write_string_hex m value pad_to_count = write_string m (string_hex value pad_to_count)

-- `operator String`.
unfoldable pub as_string : MemoryStream → String
as_string m = m.buffer

-- Reading bytes: fewer than asked for are the end of the data.
unfoldable pub read_raw : MemoryStream → ℕ → MemoryStream × String
read_raw m n =
    let rest = drop m.get m.buffer in
    if good m
    then (if ltb (length rest) n
        then (record m { get = m.get + length rest; eof = true; fail = true }, rest)
        else (record m { get = m.get + n }, take n rest))
    else (record m { fail = true }, [])

-- `getline`: the line without its newline; a stream that is not good leaves the data as it was.
unfoldable pub read_line : MemoryStream → (data_before : String) → MemoryStream × String
read_line m data_before =
    let rest = drop m.get m.buffer in
    let found = elim (index_of 10 rest) as (λ _. MemoryStream × String) [
      | some k ↦ (record m { get = m.get + suc k }, take k rest)
      | none ↦ (record m { get = m.get + length rest; eof = true; fail = is_empty rest }, rest)
    ] in
    if good m then found else (record m { fail = true }, data_before)

-- The extractions of InputStream, each from a line of its own.
unfoldable pub read_int : MemoryStream → ℤ → MemoryStream × ℤ
read_int m before = let (m', line) = read_line m [] in (m', extract_int before line)

unfoldable pub read_unsigned : MemoryStream → ℕ → MemoryStream × ℕ
read_unsigned m before = let (m', line) = read_line m [] in (m', extract_unsigned before line)

unfoldable pub read_bool : MemoryStream → Bool → MemoryStream × Bool
read_bool m before = let (m', line) = read_line m [] in (m', extract_bool before line)
