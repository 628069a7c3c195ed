-- ===== src/InputOutput/File/Failure.antt =====
-- The operators of FileOutput on a FILE that may take a part of the bytes only.
use ren_general.Base.{
  String, text, ℕ, zero, suc, ◌<◌, ◌≡◌, refl, sym, ap, ◌∙◌, ◌⊎◌, inl, inr, Bool, true, false, List,
  [], ◌∷◌, ◌++◌, arith, leb, if◌then◌else◌, length, take, Bool-cases, append_assoc, append-nil,
}
use ren_general.Exception.{system, Result, ok, throw, abort, out_of_fuel}
use ren_general.Scalar.Exact.{ℤ, pos, negsuc}
use ren_general.InputOutput.Format.Digits.{two_digits, hex_text}
use ren_general.InputOutput.File.{
  Stream, after_check, c_string, kept_result, print_result, printed, raw_result, check_output,
  check_write_result, deliver, fflush, flush, fprintf, fwrite, write_hex, write_hex_loop, write_raw,
  write_string,
}

-- The FILE has room: neither of its states is set.
pub record IsUsable (s : Stream) : Type 0 where
  pub no_eof : s.eof ≡ false
  pub no_error : s.error ≡ false

-- No byte of a text ends it for `%s`.
abbrev pub NoNul : String → Type 0
NoNul s = c_string s ≡ s

abbrev pub grown : Stream → String → Stream
grown s bytes = record s { contents = s.contents ++ bytes }

check_output-usable : (s : Stream) → IsUsable s → check_output s ≡ ok tt
unfolding check_output
check_output-usable s u = rw (u.no_eof, u.no_error) refl

check_write_result-usable : (s : Stream) (n : ℕ) → IsUsable s → check_write_result s n ≡ ok tt
unfolding check_write_result
check_write_result-usable s n u = elim (Bool-cases (leb n 0)) [
  | inl e ↦ rw (u.no_eof, u.no_error, e) refl
  | inr e ↦ rw e refl
]

pub take-whole : (n : ℕ) (s : String) → leb (length s) n ≡ true → take n s ≡ s
take-whole zero [] h = refl
take-whole zero (c ∷ cs) h = ground (arith, h)
take-whole (suc n) [] h = refl
take-whole (suc n) (c ∷ cs) h = ap (λ t. c ∷ t) (take-whole n cs (ground (arith, h)))

module _ (taken : (contents bytes : String) → ℕ) where
  abbrev pub kept : Stream → String → Stream
  kept s bytes = record s {
    contents = s.contents ++ take (taken s.contents bytes) bytes;
    error = true;
  }

  deliver-refused :
      (s : Stream) (bytes : String)
      → s.error ≡ false
      → taken s.contents bytes < length bytes
      → deliver taken s bytes ≡ (kept s bytes, false)
  unfolding deliver
  deliver-refused s bytes e h =
      let whole : leb (length bytes) (taken s.contents bytes) ≡ false = ground (arith, h) in
      rw (whole, e) refl

  printed-usable :
      (s : Stream) (bytes : String)
      → IsUsable s
      → printed taken s bytes ≡ print_result (fprintf taken s bytes)
  unfolding printed
  printed-usable s bytes u =
      ap (λ c. after_check s c (print_result (fprintf taken s bytes))) (check_output-usable s u)

  pub printed-refused :
      (s : Stream) (bytes : String)
      → IsUsable s
      → taken s.contents bytes < length bytes
      → printed taken s bytes ≡ (kept s bytes, ok tt)
  unfolding fprintf print_result check_write_result
  printed-refused s bytes u h =
      printed-usable s bytes u
      ∙ ap (λ (d : Stream × Bool). print_result (d.0, if d.1 then pos (length bytes) else negsuc 0))
          (deliver-refused s bytes u.no_error h)

  -- A usable FILE that does not take all bytes of a text, of one byte or more and with no byte 0 among
  -- them, keeps those that it took. The call that writes the
  -- text as a string returns as if all had been taken, and the next one throws; the call that writes
  -- the same bytes as raw data throws at once.
  pub write-refused :
      (s : Stream) (b : ℕ) (bytes next : String)
      → IsUsable s
      → NoNul (b ∷ bytes)
      → taken s.contents (b ∷ bytes) < length (b ∷ bytes)
      → let after = kept s (b ∷ bytes) in
        (write_string taken s (b ∷ bytes) ≡ (after, ok tt))
        × (write_string taken after next
            ≡ (after, throw (system (text "File is in the error state."))))
        × (write_raw taken s (b ∷ bytes)
            ≡ (after, throw (system (text "Encountered error while writing; write failed."))))
  unfolding write_string write_raw fprintf fwrite printed print_result raw_result check_output
      check_write_result
  write-refused s b bytes next u n h =
      let refused = deliver-refused s (b ∷ bytes) u.no_error h in
      (
        ap (λ t. printed taken s t) n ∙ printed-refused s (b ∷ bytes) u h,
        rw u.no_eof refl,
        ap (λ c. after_check s c (raw_result (fwrite taken s (b ∷ bytes))))
              (check_output-usable s u)
            ∙ ap (λ (d : Stream × Bool). raw_result (d.0, if d.1 then 1 else 0)) refused,
      )

  -- FILEs take whole what is written to them.
  abbrev pub TakesAll : Type 0
  TakesAll = (contents bytes : String) → leb (length bytes) (taken contents bytes) ≡ true

  deliver-whole :
      (s : Stream) (bytes : String)
      → s.error ≡ false
      → leb (length bytes) (taken s.contents bytes) ≡ true
      → deliver taken s bytes ≡ (grown s bytes, true)
  unfolding deliver
  deliver-whole s bytes e h =
      rw (h, take-whole (taken s.contents bytes) bytes h)
        (ap (λ x. (record s { contents = s.contents ++ bytes; error = x }, true)) (rw e refl))

  pub printed-whole :
      (s : Stream) (bytes : String)
      → IsUsable s
      → leb (length bytes) (taken s.contents bytes) ≡ true
      → printed taken s bytes ≡ (grown s bytes, ok tt)
  unfolding fprintf print_result
  printed-whole s bytes u h =
      printed-usable s bytes u
      ∙ ap (λ (d : Stream × Bool). print_result (d.0, if d.1 then pos (length bytes) else negsuc 0))
          (deliver-whole s bytes u.no_error h)
      ∙ ap (λ r. (grown s bytes, r))
          (check_write_result-usable (grown s bytes) _
            record { no_eof = u.no_eof; no_error = u.no_error })

  hex_loop-whole :
      (bytes : List ℕ) (out : Stream) (result : ℤ)
      → TakesAll
      → out.error ≡ false
      → (write_hex_loop taken out result bytes).0.contents ≡ out.contents ++ hex_text bytes
  unfolding write_hex_loop fprintf
  hex_loop-whole [] out result h e = sym (append-nil out.contents)
  hex_loop-whole (b ∷ bytes) out result h e =
      let out' = grown out (two_digits b) in
      let first = deliver-whole out (two_digits b) e (h out.contents (two_digits b)) in
      ap
        (λ (d : Stream × Bool).
          (write_hex_loop taken d.0 (kept_result (if d.1 then pos 2 else negsuc 0) result)
            bytes).0.contents)
        first
      ∙ hex_loop-whole bytes out' (kept_result (pos 2) result) h e
      ∙ append_assoc out.contents (two_digits b) (hex_text bytes)

  -- A HexToken that is written to a usable file changes neither the file nor its state, and does not
  -- throw: where FILEs take all that is written, its text goes whole to stdout, which is usable too.
  pub write_hex-file :
      (out s : Stream) (bytes : List ℕ)
      → IsUsable out
      → IsUsable s
      → TakesAll
      → let (streams, result) = write_hex taken out s bytes in
        (streams.1 ≡ s) × (result ≡ ok tt) × (streams.0.contents ≡ out.contents ++ hex_text bytes)
  unfolding write_hex
  write_hex-file out s bytes o u h =
      (refl, check_write_result-usable s _ u, hex_loop-whole bytes out (pos 0) h o.no_error)

module _ (taken : (contents bytes : String) → ℕ) where
  -- A text is written whole or in part.
  write_string-cases :
      (s : Stream) (t : String)
      → IsUsable s
      → (write_string taken s t ≡ (grown s (c_string t), ok tt))
        ⊎ (write_string taken s t ≡ (kept taken s (c_string t), ok tt))
  unfolding write_string printed print_result fprintf
  write_string-cases s t u =
      let bytes = c_string t in
      elim (Bool-cases (leb (length bytes) (taken s.contents bytes))) [
        | inl h ↦ inl (printed-whole taken s bytes u h)
        | inr h ↦ inr (printed-refused taken s bytes u (ground (arith, h)))
      ]

abbrev pub continued :
    Stream × Result (Unit {0}) → (Stream → Stream × Result (Unit {0})) → Stream × Result (Unit {0})
continued (s, ok t) next = next s
continued (s, throw e) next = (s, throw e)
continued (s, abort) next = (s, abort)
continued (s, out_of_fuel) next = (s, out_of_fuel)

module _ (taken : (contents bytes : String) → ℕ) (reached : String → ℕ) where
  -- Texts that are written in turn, and then a flush: up to the first call that throws.
  abbrev pub write_all : List String → Stream → Stream × Result (Unit {0})
  write_all [] s = flush reached s
  write_all (t ∷ ts) s = continued (write_string taken s t) (write_all ts)

  abbrev pub all_texts : List String → String
  all_texts [] = []
  all_texts (t ∷ ts) = c_string t ++ all_texts ts

  pub flush-usable : (s : Stream) → IsUsable s → flush reached s ≡ (fflush reached s, ok tt)
  unfolding flush
  flush-usable s u = ap (λ c. after_check s c (fflush reached s, ok tt)) (check_output-usable s u)

  -- A flush that leaves no error state got all of the contents into the file.
  fflush-error :
      (s : Stream)
      → s.error ≡ false
      → (fflush reached s).error ≡ false
      → leb (length s.contents) (reached s.contents) ≡ true
  fflush-error s e h = ground (arith, e, h)

  write_all-failed :
      (ts : List String) (s : Stream)
      → s.eof ≡ false
      → s.error ≡ true
      → (write_all ts s).1 ≡ throw (system (text "File is in the error state."))
  unfolding flush check_output write_string printed
  write_all-failed [] s e h = rw (e, h) refl
  write_all-failed (t ∷ ts) s e h = rw (e, h) refl

  -- Texts that are written to a usable file in turn, with a flush behind them: if no call throws, and
  -- the FILE is not in its error state after the flush, all of them are in the file, in their order,
  -- each up to its first byte 0.
  pub write_all-ok :
      (ts : List String) (s : Stream)
      → IsUsable s
      → (write_all ts s).1 ≡ ok tt
      → (write_all ts s).0.error ≡ false
      → (write_all ts s).0.in_file ≡ s.contents ++ all_texts ts
  write_all-ok [] s u h k =
      let flushed = flush-usable s u in
      ap (λ r. r.0.in_file) flushed
      ∙ take-whole (reached s.contents) s.contents
          (fflush-error s u.no_error (sym (ap (λ r. r.0.error) flushed) ∙ k))
      ∙ sym (append-nil s.contents)
  write_all-ok (t ∷ ts) s u h k = elim (write_string-cases taken s t u) [
    | inl e ↦
        let u' : IsUsable (grown s (c_string t)) = record {
          no_eof = u.no_eof;
          no_error = u.no_error;
        } in
        ap (λ r. (continued r (write_all ts)).0.in_file) e
        ∙ write_all-ok ts (grown s (c_string t)) u'
            (sym (ap (λ r. (continued r (write_all ts)).1) e) ∙ h)
            (sym (ap (λ r. (continued r (write_all ts)).0.error) e) ∙ k)
        ∙ append_assoc s.contents (c_string t) (all_texts ts)
    | inr e ↦
        let failed = write_all-failed ts (kept taken s (c_string t)) u.no_eof refl in
        let thrown = sym failed ∙ sym (ap (λ r. (continued r (write_all ts)).1) e) ∙ h in cc
  ]
