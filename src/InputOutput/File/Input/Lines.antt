-- ===== src/InputOutput/File/Input/Lines.antt =====
-- The loop by which FileInput reads a line.
use mathlib.Core.Path.{subst}
use native.Mathlib.Nat.{two-pow-succ}
use ren_general.Base.{
  String, ℕ, zero, suc, ◌-◌, ◌*◌, ◌^◌, ◌<◌, ◌≤◌, ◌≡◌, refl, sym, ◌⊎◌, inl, inr, Bool, true, false,
  Option, none, some, [], ◌∷◌, arith, ltb, length, take, All, Bool-cases, ltb→lt,
}
use ren_general.Exception.{Result, ok}
use ren_general.InputOutput.File.Input.{
  Source, cut, ends_line, fgets, line_step, read_line, read_line_loop,
}

-- A text with no byte that ends a line.
abbrev pub IsPlain : String → Type 0
IsPlain = All (λ c. ends_line c ≡ false)

cut-IsPlain : (s : String) → IsPlain (cut s)
cut-IsPlain [] = tt
cut-IsPlain (c ∷ cs) = elim (Bool-cases (ends_line c)) [
  | inl e ↦ rw e tt
  | inr e ↦ rw e (e, cut-IsPlain cs)
]

length-cut : (s : String) → length (cut s) ≤ length s
length-cut [] = omega arith
length-cut (c ∷ cs) = elim (Bool-cases (ends_line c)) [
  | inl e ↦ rw e (omega arith)
  | inr e ↦ let rest = length-cut cs in rw e (omega arith)
]

length-take_le : (n : ℕ) (s : String) → length (take n s) ≤ n
length-take_le zero s = omega arith
length-take_le (suc n) [] = omega arith
length-take_le (suc n) (c ∷ cs) = let rest = length-take_le n cs in omega arith

doubled : (size fuel : ℕ) → size * 2 ^ suc fuel ≡ size * 2 * 2 ^ fuel
doubled size fuel = rw (two-pow-succ fuel) (omega arith)

module _ (einval : Source → Bool) where
  pub loop-step :
      (fuel size : ℕ) (f : Source) (before : String)
      → ltb size (1024 * 1024 * 10) ≡ true
      → read_line_loop einval (suc fuel) size f before
        ≡ line_step einval size before
            (λ f'. read_line_loop einval fuel (size * 2) f' before)
            (fgets size f)
  unfolding read_line_loop
  loop-step fuel size f before h = rw h refl

  -- What the loop gives: the text that was there before, or a line that is shorter than the buffer
  -- and has no byte that ends it.
  abbrev Good : String → Source × String → Type 0
  Good before (f, line) = (line ≡ before) ⊎ ((length line < 1024 * 1024 * 10) × IsPlain line)

  abbrev Gives : String → Result (Source × String) → Type 0
  Gives before result = (r : Source × String) × (result ≡ ok r) × Good before r

  line_step-Gives :
      (size : ℕ) (before : String) (again : Source → Result (Source × String))
      (r : Source × Option String)
      → ltb size (1024 * 1024 * 10) ≡ true
      → ((f : Source) → Gives before (again f))
      → Gives before (line_step einval size before again r)
  line_step-Gives size before again (f, some t) h k =
      let a = length-cut (take (size - 1) t) in
      let b = length-take_le (size - 1) t in
      let small = ltb→lt size (1024 * 1024 * 10) h in
      let short : length (cut (take (size - 1) t)) < 1024 * 1024 * 10 = omega arith in
      ((f, cut (take (size - 1) t)), refl, inr (short, cut-IsPlain (take (size - 1) t)))
  line_step-Gives size before again (f, none) h k = elim (Bool-cases (einval f)) [
    | inl e ↦ rw e (k f)
    | inr e ↦ ((f, before), rw e refl, inl refl)
  ]

  read_line_loop-Gives :
      (fuel size : ℕ) (f : Source) (before : String)
      → 1024 * 1024 * 10 ≤ size * 2 ^ fuel
      → Gives before (read_line_loop einval (suc fuel) size f before)
  unfolding read_line_loop
  read_line_loop-Gives zero size f before h =
      let big : ltb size (1024 * 1024 * 10) ≡ false = ground (arith, h) in
      ((f, before), rw big refl, inl refl)
  read_line_loop-Gives (suc fuel) size f before h =
      elim (Bool-cases (ltb size (1024 * 1024 * 10))) [
        | inr big ↦ ((f, before), rw big refl, inl refl)
        | inl small ↦
            let enough : 1024 * 1024 * 10 ≤ size * 2 * 2 ^ fuel =
              subst (λ n. 1024 * 1024 * 10 ≤ n) (doubled size fuel) h in
            subst (Gives before) (sym (loop-step (suc fuel) size f before small)) (
              line_step-Gives size before _ (fgets size f) small
                (λ f'. read_line_loop-Gives fuel (size * 2) f' before enough))
      ]

  -- Reading a line ends, whatever the FILE is and errno says, and does not throw: either the text
  -- stays as it was before, or it becomes a line of less than 10 MB, with no byte in it that ends one.
  pub read_line_returns :
      (f : Source) (before : String)
      → (r : Source × String) × (read_line einval f before ≡ ok r)
        × ((r.1 ≡ before) ⊎ ((length r.1 < 1024 * 1024 * 10) × IsPlain r.1))
  unfolding read_line
  read_line_returns f before = read_line_loop-Gives 12 (1024 * 4) f before (omega arith)
