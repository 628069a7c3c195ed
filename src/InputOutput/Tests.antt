-- ===== src/InputOutput/Tests.antt =====
-- Runs of the streams, and the theorems of InputOutput at concrete inputs.
use Prim.Native.Nat.{ℕ, ◌*◌, ◌<◌}
use ren_general.Base.{
  String, text, ◌≡◌, ◌⊎◌, refl, Bool, true, false, List, [], ◌∷◌, ◌++◌, arith, length, take, map,
  leb,
}
use ren_general.Exception.{system, ok, throw}
use ren_general.Scalar.Exact.{pos, negsuc}
use ren_general.InputOutput.Format.{string_hex, extract_int}
use ren_general.InputOutput.Memory.{MemoryStream, new, good, read_line}
use ren_general.InputOutput.Memory.Lines.{AtEnd, read_lines, write_lines, read_lines-write_lines}
use ren_general.InputOutput.Standard.{StandardStream}
use ren_general.InputOutput.Standard.Failure.{Ended, string, int, put_all, put_all-cases}
use ren_general.InputOutput.File
use ren_general.InputOutput.File.{Stream, Files, FileOutput}
use ren_general.InputOutput.File.Failure.{IsUsable, write-refused, write_all}
use ren_general.InputOutput.File.Input
use ren_general.InputOutput.File.Input.Lines.{IsPlain, read_line_returns}
use ren_general.InputOutput.File.Input.RoundTrip
use ren_general.InputOutput.File.Input.RoundTrip.{
  opened, line_text, read_lines-write_all, read_line-long,
}

string_hex-padded : string_hex 10 4 ≡ text "000a"
unfolding string_hex
string_hex-padded = refl

extract_int-sign : extract_int (pos 7) (text "  -12x") ≡ negsuc 11
unfolding extract_int
extract_int-sign = refl

abbrev two_lines : List String
two_lines = text "one" ∷ text "two" ∷ []

read_lines-write_lines_example :
    let (m, read) = read_lines 2 (write_lines new two_lines) in
    (read ≡ two_lines)
    × (good m ≡ true)
    × ((read_line m []).1 ≡ [])
    × ((read_line m []).0.fail ≡ true)
read_lines-write_lines_example =
    read_lines-write_lines two_lines ((refl, (refl, (refl, tt))), ((refl, (refl, (refl, tt))), tt))

abbrev new_AtEnd : AtEnd new
unfolding new
new_AtEnd = record { ended = refl; no_eof = refl; no_fail = refl; no_width = refl }

abbrev half : MemoryStream
unfolding new
half = record new { buffer = text "a"; put = 1 }

-- A device that takes up to three bytes.
abbrev three_at_most : String → Bool
three_at_most s = leb (length s) 3

abbrev console : StandardStream
console = record { output = new; input = new }

put_all-cases_example :
    let os = string (text "ab") ∷ int (pos 12) ∷ string (text "c") ∷ [] in
    Ended three_at_most os console.output (put_all three_at_most os console)
unfolding new good
put_all-cases_example =
    put_all-cases three_at_most (string (text "ab") ∷ int (pos 12) ∷ string (text "c") ∷ []) console
      refl

-- A FILE that takes two bytes of every text, and one that takes all.
abbrev two_bytes : String → String → ℕ
two_bytes contents bytes = 2

abbrev whole_text : String → String → ℕ
whole_text contents bytes = length bytes

abbrev empty_stream : Stream
empty_stream = record {
  filename = text "out";
  contents = [];
  in_file = [];
  eof = false;
  error = false;
}

abbrev empty_IsUsable : IsUsable empty_stream
empty_IsUsable = record { no_eof = refl; no_error = refl }

write-refused_example :
    let after : Stream = record {
      filename = text "out";
      contents = [] ++ take 2 (text "abc");
      in_file = [];
      eof = false;
      error = true;
    } in
    (File.write_string two_bytes empty_stream (text "abc") ≡ (after, ok tt))
    × (File.write_string two_bytes after (text "d")
        ≡ (after, throw (system (text "File is in the error state."))))
    × (File.write_raw two_bytes empty_stream (text "abc")
        ≡ (after, throw (system (text "Encountered error while writing; write failed."))))
write-refused_example =
    write-refused two_bytes empty_stream 97 (text "bc") (text "d") empty_IsUsable refl
      (ground arith)

-- errno is never EINVAL, or always.
abbrev other_errno : Input.Source → Bool
other_errno f = false

abbrev always_einval : Input.Source → Bool
always_einval f = true

read_line_returns_example :
    (r : Input.Source × String) × (Input.read_line always_einval (opened []) (text "before") ≡ ok r)
    × ((r.1 ≡ text "before") ⊎ ((length r.1 < 1024 * 1024 * 10) × IsPlain r.1))
read_line_returns_example = read_line_returns always_einval (opened []) (text "before")

read_lines-write_all_example :
    RoundTrip.read_lines other_errno 2
      (opened (write_all whole_text length (map line_text two_lines) empty_stream).0.in_file)
    ≡ ok (opened [], two_lines)
unfolding File.write_string File.printed File.print_result File.fprintf File.deliver
    File.check_output File.check_write_result File.flush
read_lines-write_all_example =
    read_lines-write_all whole_text length other_errno two_lines empty_stream
      (((refl, (refl, (refl, tt))), ground arith), (((refl, (refl, (refl, tt))), ground arith), tt))
      empty_IsUsable refl refl refl
