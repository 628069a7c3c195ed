-- ===== src/InputOutput/Memory/Lines.antt =====
-- Lines and numbers that are written to a memory stream and read from it.
use Prim.Native.Nat.add
use mathlib.Core.Path.{subst}
use native.Mathlib.Nat.{zero-add}
use ren_general.Base.{
  String, ℕ, zero, suc, ◌+◌, ◌-◌, ◌<◌, ◌≡◌, refl, sym, ap, ◌∙◌, true, false, some, List, [], ◌∷◌,
  ◌++◌, arith, ◌==◌, length, length-append, take, drop, index_of, append-nil, append_assoc, All,
}
use ren_general.Scalar.Exact.{ℤ}
use ren_general.InputOutput.Format.{Format, default_format, show_int, pad, extract_int}
use ren_general.InputOutput.Format.Digits.{IsInt, show_int-digits, extract_int-show_int}
use ren_general.InputOutput.Memory.{
  MemoryStream, new, good, overwrite, write_raw, insert, write_string, write_int, read_line,
  read_int,
}

take-length : (b : String) → take (length b) b ≡ b
take-length [] = refl
take-length (c ∷ cs) = ap (λ l. c ∷ l) (take-length cs)

drop_past : (b : String) (k : ℕ) → drop (length b + k) b ≡ []
drop_past [] zero = refl
drop_past [] (suc k) = rw zero-add refl
drop_past (c ∷ cs) k = rw add.suc (drop_past cs k)

overwrite_end : (b s : String) → overwrite b (length b) s ≡ b ++ s
overwrite_end b s = rw (take-length b, drop_past b (length s), append-nil s) refl

-- A good stream that writes at its end, with no width set.
pub record AtEnd (m : MemoryStream) : Type 0 where
  pub ended : m.put ≡ length m.buffer
  pub no_eof : m.eof ≡ false
  pub no_fail : m.fail ≡ false
  pub no_width : m.format.width ≡ 0

-- What such a stream becomes by text behind its end.
abbrev pub extended : MemoryStream → String → MemoryStream
extended m s = record m {
  buffer = m.buffer ++ s;
  put = m.put + length s;
  format = record m.format { width = 0 };
}

pub AtEnd-good : (m : MemoryStream) → AtEnd m → good m ≡ true
unfolding good
AtEnd-good m e = ground (arith, e.no_eof, e.no_fail)

good_get : (m : MemoryStream) (k : ℕ) → good (record m { get = k }) ≡ good m
unfolding good
good_get m k = refl

no_pad : (f : Format) (s : String) → f.width ≡ 0 → pad f s ≡ s
unfolding pad
no_pad f s e = let n : f.width - length s ≡ 0 = omega arith in rw n refl

pub write_raw_lem :
    (m : MemoryStream) (s : String)
    → AtEnd m
    → write_raw m s ≡ record m { buffer = m.buffer ++ s; put = m.put + length s }
unfolding write_raw
write_raw_lem m s e = rw (AtEnd-good m e) (
    ap (λ b. record m { buffer = b; put = m.put + length s })
      (ap (λ p. overwrite m.buffer p s) e.ended ∙ overwrite_end m.buffer s))

pub insert_lem : (m : MemoryStream) (s : String) → AtEnd m → insert m s ≡ extended m s
insert_lem m s e = rw (AtEnd-good m e, no_pad m.format s e.no_width, write_raw_lem m s e) refl

pub AtEnd-extended : (m : MemoryStream) (s : String) → AtEnd m → AtEnd (extended m s)
AtEnd-extended m s e = record {
  ended = ap (λ n. n + length s) e.ended ∙ sym (length-append m.buffer s);
  no_eof = e.no_eof;
  no_fail = e.no_fail;
  no_width = refl;
}

abbrev pub newline : ℕ
newline = 10

-- A text is written with a newline behind it.
abbrev pub write_line : MemoryStream → String → MemoryStream
write_line m s = write_string (write_string m s) (newline ∷ [])

abbrev pub write_lines : MemoryStream → List String → MemoryStream
write_lines m [] = m
write_lines m (l ∷ ls) = write_lines (write_line m l) ls

-- As many lines are read as the number says.
abbrev pub read_lines : ℕ → MemoryStream → MemoryStream × List String
read_lines zero m = (m, [])
read_lines (suc n) m =
    let (m', l) = read_line m [] in let (m'', ls) = read_lines n m' in (m'', l ∷ ls)

abbrev pub NoNewline : String → Type 0
NoNewline = All (λ c. (c == newline) ≡ false)

abbrev lines_text : List String → String
lines_text [] = []
lines_text (l ∷ ls) = l ++ newline ∷ lines_text ls

pub write_string_lem : (m : MemoryStream) (s : String) → AtEnd m → write_string m s ≡ extended m s
unfolding write_string
write_string_lem m s e = insert_lem m s e

write_lines_lem :
    (m : MemoryStream) (ls : List String)
    → AtEnd m
    → AtEnd (write_lines m ls)
      × ((write_lines m ls).buffer ≡ m.buffer ++ lines_text ls)
      × ((write_lines m ls).get ≡ m.get)
write_lines_lem m [] e = (e, sym (append-nil m.buffer), refl)
write_lines_lem m (l ∷ ls) e =
    let m1 = extended m l in
    let e1 = AtEnd-extended m l e in
    let m2 = extended m1 (newline ∷ []) in
    let e2 = AtEnd-extended m1 (newline ∷ []) e1 in
    let (end, buffer, get) = write_lines_lem m2 ls e2 in
    let written : write_line m l ≡ m2 =
      rw (write_string_lem m l e) (write_string_lem m1 (newline ∷ []) e1) in
    subst
      (λ x.
        AtEnd (write_lines x ls)
        × ((write_lines x ls).buffer ≡ m.buffer ++ lines_text (l ∷ ls))
        × ((write_lines x ls).get ≡ m.get))
      (sym written) (end, buffer ∙ simp append_assoc, get)

drop_nil : (n : ℕ) → drop {A = ℕ} n [] ≡ []
drop_nil zero = refl
drop_nil (suc n) = refl

drop-drop : (a b : ℕ) (s : String) → drop (a + b) s ≡ drop b (drop a s)
drop-drop zero b s = rw zero-add refl
drop-drop (suc a) b [] = drop_nil (suc a + b) ∙ sym (drop_nil b)
drop-drop (suc a) b (c ∷ cs) = rw add.suc (drop-drop a b cs)

index_of-newline :
    (l rest : String) → NoNewline l → index_of newline (l ++ newline ∷ rest) ≡ some (length l)
index_of-newline [] rest h = refl
index_of-newline (c ∷ cs) rest h = rw (h.0, index_of-newline cs rest h.1) refl

pub take_line : (l rest : String) → take (length l) (l ++ rest) ≡ l
take_line [] rest = refl
take_line (c ∷ cs) rest = ap (λ t. c ∷ t) (take_line cs rest)

drop_line : (l rest : String) → drop (suc (length l)) (l ++ newline ∷ rest) ≡ rest
drop_line [] rest = refl
drop_line (c ∷ cs) rest = drop_line cs rest

pub drop_front : (b s : String) → drop (length b) (b ++ s) ≡ s
drop_front [] s = refl
drop_front (c ∷ cs) s = drop_front cs s

-- Reading a line that is there.
read_line_lem :
    (m : MemoryStream) (before l rest : String)
    → good m ≡ true
    → drop m.get m.buffer ≡ l ++ newline ∷ rest
    → NoNewline l
    → read_line m before ≡ (record m { get = m.get + suc (length l) }, l)
unfolding read_line
read_line_lem m before l rest g e h =
    rw (g, e, index_of-newline l rest h, e, take_line l (newline ∷ rest)) refl

read_line_end :
    (m : MemoryStream) (before : String)
    → good m ≡ true
    → drop m.get m.buffer ≡ []
    → ((read_line m before).1 ≡ []) × ((read_line m before).0.fail ≡ true)
unfolding read_line
read_line_end m before g e = rw (g, e) (e, rw e refl)

read_lines_lem :
    (m : MemoryStream) (ls : List String)
    → good m ≡ true
    → drop m.get m.buffer ≡ lines_text ls
    → All NoNewline ls
    → ((read_lines (length ls) m).1 ≡ ls)
      × (good (read_lines (length ls) m).0 ≡ true)
      × (drop (read_lines (length ls) m).0.get (read_lines (length ls) m).0.buffer ≡ [])
read_lines_lem m [] g e h = (refl, g, e)
read_lines_lem m (l ∷ ls) g e h =
    let m' : MemoryStream = record m { get = m.get + suc (length l) } in
    let left : drop m'.get m'.buffer ≡ lines_text ls =
      drop-drop m.get (suc (length l)) m.buffer ∙ rw e (drop_line l (lines_text ls)) in
    let (lines, good', done) = read_lines_lem m' ls (good_get m m'.get ∙ g) left h.1 in
    subst
      (λ (r : MemoryStream × String).
        ((r.1 ∷ (read_lines (length ls) r.0).1) ≡ l ∷ ls)
        × (good (read_lines (length ls) r.0).0 ≡ true)
        × (drop (read_lines (length ls) r.0).0.get (read_lines (length ls) r.0).0.buffer ≡ []))
      (sym (read_line_lem m [] l (lines_text ls) g e h.0)) (ap (λ t. l ∷ t) lines, good', done)

-- Lines written to a new stream, none with a newline in it, are read back in their order, with the
-- stream still good; the line that is read next is empty, and the stream has failed.
pub read_lines-write_lines :
    (ls : List String)
    → All NoNewline ls
    → let (m, read) = read_lines (length ls) (write_lines new ls) in
      (read ≡ ls) × (good m ≡ true) × ((read_line m []).1 ≡ []) × ((read_line m []).0.fail ≡ true)
unfolding new
read_lines-write_lines ls h =
    let start : AtEnd new = record {
      ended = refl;
      no_eof = refl;
      no_fail = refl;
      no_width = refl;
    } in
    let (end, buffer, get) = write_lines_lem new ls start in
    let written = write_lines new ls in
    let left : drop written.get written.buffer ≡ lines_text ls = rw get buffer in
    let (read, good', done) = read_lines_lem written ls (AtEnd-good written end) left h in
    let (line, failed) = read_line_end (read_lines (length ls) written).0 [] good' done in
    (read, good', line, failed)

above_newline : (s : String) → All (λ c. 10 < c) s → NoNewline s
above_newline [] h = tt
above_newline (c ∷ cs) h = (ground arith, above_newline cs h.1)

-- An int that is written to a stream with the default flags, which was read to its end and writes
-- there, is read back from the line, and the stream is good.
pub read_int-write_int :
    (m : MemoryStream) (before n : ℤ)
    → AtEnd m
    → m.get ≡ length m.buffer
    → m.format ≡ default_format
    → IsInt n
    → ((read_int (write_string (write_int m n) (newline ∷ [])) before).1 ≡ n)
      × (good (read_int (write_string (write_int m n) (newline ∷ [])) before).0 ≡ true)
unfolding read_int write_int
read_int-write_int m before n e g f h =
    let s = show_int 32 default_format n in
    let m1 = extended m s in
    let e1 = AtEnd-extended m s e in
    let m2 = extended m1 (newline ∷ []) in
    let e2 = AtEnd-extended m1 (newline ∷ []) e1 in
    let written : write_string (insert m (show_int 32 m.format n)) (newline ∷ []) ≡ m2 =
      ap (λ f'. write_string (insert m (show_int 32 f' n)) (newline ∷ [])) f
      ∙ ap (λ x. write_string x (newline ∷ [])) (insert_lem m s e)
      ∙ write_string_lem m1 (newline ∷ []) e1 in
    let left : drop m2.get m2.buffer ≡ s ++ newline ∷ [] =
      ap (λ k. drop k m2.buffer) g
      ∙ ap (λ b. drop (length m.buffer) b) (append_assoc m.buffer s (newline ∷ []))
      ∙ drop_front m.buffer (s ++ newline ∷ []) in
    let line =
      read_line_lem m2 [] s [] (AtEnd-good m2 e2) left (above_newline s (show_int-digits n)) in
    subst (λ x. (extract_int before (read_line x []).1 ≡ n) × (good (read_line x []).0 ≡ true))
      (sym written)
      (subst (λ (r : MemoryStream × String). (extract_int before r.1 ≡ n) × (good r.0 ≡ true))
        (sym line)
        (extract_int-show_int before n h, good_get m2 (m2.get + suc (length s)) ∙ AtEnd-good m2 e2))
