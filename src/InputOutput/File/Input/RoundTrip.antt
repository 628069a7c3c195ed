-- ===== src/InputOutput/File/Input/RoundTrip.antt =====
-- Lines that a FileOutput wrote to a file, as a FileInput reads them from it.
use ren_general.Base.{
  String, ℕ, zero, suc, ◌*◌, ◌<◌, ◌≡◌, refl, ap, ◌∙◌, Bool, true, false, some, List, [], ◌∷◌, ◌++◌,
  arith, ◌==◌, leb, length, length-append, drop, is_empty, All, append_assoc, map,
}
use ren_general.Exception.{Result, ok, ◌>>=◌}
use ren_general.InputOutput.File.{Stream, c_string}
use ren_general.InputOutput.File.Failure.{IsUsable, take-whole, write_all, write_all-ok, all_texts}
use ren_general.InputOutput.File.Input.{
  Source, cut, fgets, fgets_ends, fgets_text, line_step, read_line, read_line_loop,
}
use ren_general.InputOutput.File.Input.Lines.{IsPlain, loop-step}

-- A file with these bytes, just opened, on a device that does not fail.
abbrev pub opened : String → Source
opened bytes = record { rest = bytes; eof = false; error = false; failing = false }

abbrev newline : ℕ
newline = 10

-- What `*this << Line << "\n"` writes, as one text.
abbrev pub line_text : String → String
line_text l = l ++ newline ∷ []

fgets_text-line :
    (room : ℕ) (l tail : String)
    → IsPlain l
    → length l < room
    → fgets_text room (l ++ newline ∷ tail) ≡ line_text l
fgets_text-line zero l tail p h = ground (arith, h)
fgets_text-line (suc room) [] tail p h = refl
fgets_text-line (suc room) (c ∷ cs) tail p h =
    let other : (c == 10) ≡ false = ground (arith, p.0) in
    rw other (ap (λ t. c ∷ t) (fgets_text-line room cs tail p.1 (omega arith)))

fgets_ends-line :
    (room : ℕ) (l tail : String)
    → IsPlain l
    → length l < room
    → fgets_ends room (l ++ newline ∷ tail) ≡ false
fgets_ends-line zero l tail p h = ground (arith, h)
fgets_ends-line (suc room) [] tail p h = refl
fgets_ends-line (suc room) (c ∷ cs) tail p h =
    let other : (c == 10) ≡ false = ground (arith, p.0) in
    rw other (fgets_ends-line room cs tail p.1 (omega arith))

cut-line : (l : String) → IsPlain l → cut (line_text l) ≡ l
cut-line [] p = refl
cut-line (c ∷ cs) p = rw p.0 (ap (λ t. c ∷ t) (cut-line cs p.1))

drop-line : (l tail : String) → drop (length (line_text l)) (l ++ newline ∷ tail) ≡ tail
drop-line [] tail = refl
drop-line (c ∷ cs) tail = drop-line cs tail

line_text-filled : (l : String) → is_empty (line_text l) ≡ false
line_text-filled [] = refl
line_text-filled (c ∷ cs) = refl

-- A line that a FileInput reads whole.
abbrev pub IsLine : String → Type 0
IsLine l = IsPlain l × (length l < 4095)

fgets-line :
    (l tail : String)
    → IsLine l
    → fgets 4096 (opened (l ++ newline ∷ tail)) ≡ (opened tail, some (line_text l))
unfolding fgets
fgets-line l tail (p, h) =
    rw
      (
        fgets_text-line 4095 l tail p h,
        fgets_ends-line 4095 l tail p h,
        drop-line l tail,
        line_text-filled l,
      )
      refl

fgets_text-long :
    (room : ℕ) (l tail : String) → IsPlain l → length l ≡ room → fgets_text room (l ++ tail) ≡ l
fgets_text-long zero [] tail p h = refl
fgets_text-long zero (c ∷ cs) tail p h = ground (arith, h)
fgets_text-long (suc room) [] tail p h = ground (arith, h)
fgets_text-long (suc room) (c ∷ cs) tail p h =
    let other : (c == 10) ≡ false = ground (arith, p.0) in
    rw other (ap (λ t. c ∷ t) (fgets_text-long room cs tail p.1 (omega arith)))

fgets_ends-long :
    (room : ℕ) (l tail : String) → IsPlain l → length l ≡ room → fgets_ends room (l ++ tail) ≡ false
fgets_ends-long zero l tail p h = refl
fgets_ends-long (suc room) [] tail p h = ground (arith, h)
fgets_ends-long (suc room) (c ∷ cs) tail p h =
    let other : (c == 10) ≡ false = ground (arith, p.0) in
    rw other (fgets_ends-long room cs tail p.1 (omega arith))

drop-length : (l tail : String) → drop (length l) (l ++ tail) ≡ tail
drop-length [] tail = refl
drop-length (c ∷ cs) tail = drop-length cs tail

cut-plain : (l : String) → IsPlain l → cut l ≡ l
cut-plain [] p = refl
cut-plain (c ∷ cs) p = rw p.0 (ap (λ t. c ∷ t) (cut-plain cs p.1))

long-filled : (l : String) (n : ℕ) → length l ≡ suc n → is_empty l ≡ false
long-filled [] n h = ground (arith, h)
long-filled (c ∷ cs) n h = refl

fgets-long :
    (l tail : String)
    → IsPlain l
    → length l ≡ 4095
    → fgets 4096 (opened (l ++ tail)) ≡ (opened tail, some l)
unfolding fgets
fgets-long l tail p h =
    rw
      (
        fgets_text-long 4095 l tail p h,
        fgets_ends-long 4095 l tail p h,
        drop-length l tail,
        long-filled l 4094 h,
      )
      refl

abbrev lines_text : List String → String
lines_text [] = []
lines_text (l ∷ ls) = l ++ newline ∷ lines_text ls

module _ (einval : Source → Bool) where
  read_line-some :
      (f f' : Source) (before t : String)
      → fgets 4096 f ≡ (f', some t)
      → leb (length t) 4095 ≡ true
      → read_line einval f before ≡ ok (f', cut t)
  unfolding read_line
  read_line-some f f' before t e whole =
      loop-step einval 12 4096 f before refl
      ∙ ap (line_step einval 4096 before (λ g. read_line_loop einval 12 (4096 * 2) g before)) e
      ∙ ap (λ u. ok (f', cut u)) (take-whole 4095 t whole)

  read_line-line :
      (l tail before : String)
      → IsLine l
      → read_line einval (opened (l ++ newline ∷ tail)) before ≡ ok (opened tail, l)
  read_line-line l tail before (p, h) =
      let whole : leb (length (line_text l)) 4095 ≡ true =
        rw (length-append l (newline ∷ [])) (ground (arith, h)) in
      read_line-some _ (opened tail) before (line_text l) (fgets-line l tail (p, h)) whole
      ∙ ap (λ t. ok (opened tail, t)) (cut-line l p)

  -- As many lines are read as the number says.
  abbrev pub read_lines : ℕ → Source → Result (Source × List String)
  read_lines zero f = ok (f, [])
  read_lines (suc n) f =
      read_line einval f [] >>= λ (f', l). read_lines n f' >>= λ (f'', ls). ok (f'', l ∷ ls)

  read_lines_lem :
      (ls : List String)
      → All IsLine ls
      → read_lines (length ls) (opened (lines_text ls)) ≡ ok (opened [], ls)
  read_lines_lem [] h = refl
  read_lines_lem (l ∷ ls) h =
      rw (read_line-line l (lines_text ls) [] h.0, read_lines_lem ls h.1) refl

  -- A line that does not fit the buffer is read in parts: the first call gives its first 4095 bytes,
  -- where none of them ends a line, and the rest of the file is left for the next call.
  pub read_line-long :
      (l tail before : String)
      → IsPlain l
      → length l ≡ 4095
      → read_line einval (opened (l ++ tail)) before ≡ ok (opened tail, l)
  read_line-long l tail before p h =
      read_line-some _ (opened tail) before l (fgets-long l tail p h) (rw h refl)
      ∙ ap (λ t. ok (opened tail, t)) (cut-plain l p)

c_string-line : (l : String) → IsPlain l → c_string (line_text l) ≡ line_text l
c_string-line [] p = refl
c_string-line (c ∷ cs) p =
    let other : (c == 0) ≡ false = ground (arith, p.0) in rw (other, c_string-line cs p.1) refl

module _ (taken : (contents bytes : String) → ℕ) (reached : String → ℕ)
    (einval : Source → Bool) where
  all_texts-lines :
      (ls : List String)
      → All IsLine ls
      → all_texts taken reached (map line_text ls) ≡ lines_text ls
  all_texts-lines [] h = refl
  all_texts-lines (l ∷ ls) h =
      ap (λ t. t ++ all_texts taken reached (map line_text ls)) (c_string-line l h.0.0)
      ∙ ap (λ t. line_text l ++ t) (all_texts-lines ls h.1)
      ∙ append_assoc l (newline ∷ []) (lines_text ls)

  -- Lines of less than 4095 bytes, with no byte that ends a line, which are written with newlines to
  -- an empty usable file and flushed, are read back in their order from what is then in the file, if
  -- no call that writes throws and the FILE is not in its error state after the flush.
  pub read_lines-write_all :
      (ls : List String) (s : Stream)
      → All IsLine ls
      → IsUsable s
      → s.contents ≡ []
      → (write_all taken reached (map line_text ls) s).1 ≡ ok tt
      → (write_all taken reached (map line_text ls) s).0.error ≡ false
      → read_lines einval
          (length ls)
          (opened (write_all taken reached (map line_text ls) s).0.in_file)
        ≡ ok (opened [], ls)
  read_lines-write_all ls s h u e w k =
      let contents =
        write_all-ok taken reached (map line_text ls) s u w k
        ∙ ap (λ c. c ++ all_texts taken reached (map line_text ls)) e
        ∙ all_texts-lines ls h in
      ap (λ c. read_lines einval (length ls) (opened c)) contents ∙ read_lines_lem einval ls h
