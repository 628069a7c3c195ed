-- ===== src/InputOutput/Memory/Flags.antt =====
-- What the flags and the state bits of a memory stream do to the text written later: after a
-- HexToken, and after a read that reached the end.
use mathlib.Core.Path.{subst}
use ren_general.Base.{
  String, ℕ, suc, ◌+◌, ◌≡◌, refl, sym, ap, ◌∙◌, true, false, none, List, [], ◌∷◌, ◌++◌, length,
  length-append, take, drop, index_of, is_empty,
}
use ren_general.InputOutput.Format.{Format, hexadecimal_loop, show_unsigned}
use ren_general.InputOutput.Format.Digits.{
  parse_bytes, IsBytes, hex_text, hex_loop_lem, parse_bytes-hex_text,
}
use ren_general.InputOutput.Memory.{
  MemoryStream, good, write_string, write_hex, write_unsigned, as_string, read_line,
}
use ren_general.InputOutput.Memory.Lines.{
  AtEnd, AtEnd-extended, AtEnd-good, NoNewline, drop_front, extended, insert_lem, newline,
  take_line, write_raw_lem, write_string_lem,
}

-- What a stream that writes at its end becomes by a HexToken with a byte.
abbrev after_hex : MemoryStream → ℕ → List ℕ → MemoryStream
after_hex m b bytes = record m {
  buffer = m.buffer ++ hex_text (b ∷ bytes);
  put = m.put + length (hex_text (b ∷ bytes));
  format = record m.format { hex = true; fill = b'0'; width = 0 };
}

write_hex_lem :
    (m : MemoryStream) (b : ℕ) (bytes : List ℕ)
    → AtEnd m
    → IsBytes (b ∷ bytes)
    → write_hex m (b ∷ bytes) ≡ after_hex m b bytes
unfolding write_hex
write_hex_lem m b bytes e h =
    let f : Format = record m.format { fill = b'0' } in
    rw (AtEnd-good m e, hex_loop_lem f (b ∷ bytes) refl h, write_raw_lem m (hex_text (b ∷ bytes)) e)
      refl

AtEnd-after_hex :
    (m : MemoryStream) (b : ℕ) (bytes : List ℕ) → AtEnd m → AtEnd (after_hex m b bytes)
AtEnd-after_hex m b bytes e = record {
  ended =
      ap (λ n. n + length (hex_text (b ∷ bytes))) e.ended
      ∙ sym (length-append m.buffer (hex_text (b ∷ bytes)));
  no_eof = e.no_eof;
  no_fail = e.no_fail;
  no_width = refl;
}

index_of-NoNewline : (s : String) → NoNewline s → index_of newline s ≡ none
index_of-NoNewline [] h = refl
index_of-NoNewline (c ∷ cs) h = rw (h.0, index_of-NoNewline cs h.1) refl

-- A HexToken with a byte or more, written at the end of a good stream, leaves what was there and
-- adds text from which its bytes can be read back.
pub parse_bytes-write_hex :
    (m : MemoryStream) (b : ℕ) (bytes : List ℕ)
    → AtEnd m
    → IsBytes (b ∷ bytes)
    → (take (length m.buffer) (as_string (write_hex m (b ∷ bytes))) ≡ m.buffer)
      × (parse_bytes (drop (length m.buffer) (as_string (write_hex m (b ∷ bytes)))) ≡ b ∷ bytes)
unfolding as_string
parse_bytes-write_hex m b bytes e h =
    let written = write_hex_lem m b bytes e h in
    let text = ap as_string written in
    (
      ap (take (length m.buffer)) text ∙ take_line m.buffer (hex_text (b ∷ bytes)),
      ap (λ t. parse_bytes (drop (length m.buffer) t)) text
          ∙ ap parse_bytes (drop_front m.buffer (hex_text (b ∷ bytes)))
          ∙ parse_bytes-hex_text (b ∷ bytes) h,
    )

-- After a HexToken with a byte or more, an unsigned number that is written to the same stream is
-- printed in hexadecimal, and still is after a text was written in between.
pub write_unsigned-write_hex :
    (m : MemoryStream) (b : ℕ) (bytes : List ℕ) (s : String) (n : ℕ)
    → AtEnd m
    → IsBytes (b ∷ bytes)
    → as_string (write_unsigned (write_string (write_hex m (b ∷ bytes)) s) n)
      ≡ ((m.buffer ++ hex_text (b ∷ bytes)) ++ s) ++ hexadecimal_loop (suc n) n []
unfolding as_string write_unsigned show_unsigned
write_unsigned-write_hex m b bytes s n e h =
    let m1 = after_hex m b bytes in
    let e1 = AtEnd-after_hex m b bytes e in
    let m2 = extended m1 s in
    let e2 = AtEnd-extended m1 s e1 in
    ap (λ x. as_string (write_unsigned (write_string x s) n)) (write_hex_lem m b bytes e h)
    ∙ ap (λ x. as_string (write_unsigned x n)) (write_string_lem m1 s e1)
    ∙ ap as_string (insert_lem m2 (show_unsigned m2.format n) e2)

-- Once a good stream has read what is left of it, a last line with no newline, text that is written
-- to it is lost: the stream's text stays as it was, and the stream is not good again.
pub write_string-read_line :
    (m : MemoryStream) (before s : String)
    → good m ≡ true
    → NoNewline (drop m.get m.buffer)
    → let m' = (read_line m before).0 in
      ((read_line m before).1 ≡ drop m.get m.buffer)
      × (as_string (write_string m' s) ≡ as_string m)
      × (good (write_string m' s) ≡ false)
unfolding as_string write_string read_line good
write_string-read_line m before s g h =
    let m' : MemoryStream = record m {
      get = m.get + length (drop m.get m.buffer);
      eof = true;
      fail = is_empty (drop m.get m.buffer);
    } in
    let read : read_line m before ≡ (m', drop m.get m.buffer) =
      rw (g, index_of-NoNewline (drop m.get m.buffer) h) refl in
    subst
      (λ (r : MemoryStream × String).
        (r.1 ≡ drop m.get m.buffer)
        × (as_string (write_string r.0 s) ≡ as_string m)
        × (good (write_string r.0 s) ≡ false))
      (sym read) (refl, refl, refl)
