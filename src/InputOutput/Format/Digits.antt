-- ===== src/InputOutput/Format/Digits.antt =====
-- What is printed is read back.
use ren_general.Base.{
  String, ℕ, zero, suc, ◌+◌, ◌-◌, ◌*◌, ◌/◌, ◌%◌, ◌^◌, ◌<◌, ◌≡◌, refl, true, false, List, [], ◌∷◌,
  ◌++◌, arith, ltb, if◌then◌else◌, All, Bool-cases, inl, inr, ltb→lt, lt→ltb,
}
use ren_general.Scalar.Exact.{ℤ, pos, negsuc}
use ren_general.InputOutput.Format.{
  Format, default_format, digit, decimal_loop, hexadecimal_loop, show_unsigned, show_int, pad,
  hex_loop, skip_space, is_digit, leading, signed, extract_int,
}

leading-decimal_loop :
    (fuel n : ℕ) (out : String) → n < fuel → leading 0 (decimal_loop fuel n out) ≡ leading n out
unfolding leading decimal_loop
leading-decimal_loop zero n out h = absurd (omega arith)
leading-decimal_loop (suc fuel) n out h =
    ground (arith, leading-decimal_loop fuel (n / 10) (digit (n % 10) ∷ out))

-- A text that begins with a digit.
abbrev BeginsDigit : String → Type 0
BeginsDigit [] = Unit {0}
BeginsDigit (c ∷ cs) = is_digit c ≡ true

is_digit-digit : (d : ℕ) → d < 10 → is_digit (digit d) ≡ true
is_digit-digit d h = ground arith

low_digit : (d : ℕ) → d < 10 → is_digit (b'0' + d) ≡ true
low_digit d h = ground arith

BeginsDigit-decimal_loop :
    (fuel n : ℕ) (out : String) → BeginsDigit out → BeginsDigit (decimal_loop fuel n out)
unfolding decimal_loop
BeginsDigit-decimal_loop zero n out h = h
BeginsDigit-decimal_loop (suc fuel) n out h = elim (Bool-cases (ltb n 10)) [
  | inl e ↦ rw e (low_digit n (ltb→lt n 10 e))
  | inr e ↦ rw e (
      BeginsDigit-decimal_loop fuel (n / 10) (digit (n % 10) ∷ out)
        (is_digit-digit (n % 10) (omega arith)))
]

unsigned_text : (s : String) → BeginsDigit s → signed (skip_space s) ≡ (false, s)
unfolding skip_space
unsigned_text [] h = refl
unsigned_text (c ∷ cs) h = ground arith

cons_loop :
    (fuel n : ℕ) (out : String)
    → 0 < fuel
    → (c : ℕ) × (cs : String) × (decimal_loop fuel n out ≡ c ∷ cs)
unfolding decimal_loop
cons_loop zero n out h = absurd (omega arith)
cons_loop (suc zero) n out h = elim (Bool-cases (ltb n 10)) [
  | inl e ↦ rw e (b'0' + n, out, refl)
  | inr e ↦ rw e (digit (n % 10), out, refl)
]
cons_loop (suc (suc fuel)) n out h = elim (Bool-cases (ltb n 10)) [
  | inl e ↦ rw e (b'0' + n, out, refl)
  | inr e ↦ rw e (cons_loop (suc fuel) (n / 10) (digit (n % 10) ∷ out) (omega arith))
]

above : (d : ℕ) → d < 10 → 10 < digit d
above d h = ground arith

abbrev decimal : ℕ → String
decimal n = decimal_loop (suc n) n []

leading-decimal : (n : ℕ) → leading 0 (decimal n) ≡ n
unfolding leading
leading-decimal n = leading-decimal_loop (suc n) n [] (omega arith)

skip-text : (s : String) → BeginsDigit s → skip_space s ≡ s
unfolding skip_space
skip-text [] h = refl
skip-text (c ∷ cs) h = ground arith

skip-decimal : (n : ℕ) → skip_space (decimal n) ≡ decimal n
skip-decimal n = skip-text (decimal n) (BeginsDigit-decimal_loop (suc n) n [] tt)

signed-decimal : (n : ℕ) → signed (skip_space (decimal n)) ≡ (false, decimal n)
signed-decimal n = unsigned_text (decimal n) (BeginsDigit-decimal_loop (suc n) n [] tt)

-- The integers of an int.
abbrev pub IsInt : ℤ → Type 0
IsInt (pos n) = n < 2 ^ 31
IsInt (negsuc n) = n < 2 ^ 31

decimal_cons : (n : ℕ) → (c : ℕ) × (cs : String) × (decimal n ≡ c ∷ cs)
decimal_cons n = cons_loop (suc n) n [] (omega arith)

abbrev IsDigitText : String → Type 0
IsDigitText = All (λ c. 10 < c)

decimal-digits :
    (fuel n : ℕ) (out : String) → IsDigitText out → IsDigitText (decimal_loop fuel n out)
unfolding decimal_loop
decimal-digits zero n out h = h
decimal-digits (suc fuel) n out h = elim (Bool-cases (ltb n 10)) [
  | inl e ↦ rw e (let l : n < 10 = ltb→lt n 10 e in (omega arith, h))
  | inr e ↦
      rw e (decimal-digits fuel (n / 10) (digit (n % 10) ∷ out) (above (n % 10) (omega arith), h))
]

-- No character of a printed int is a newline.
pub show_int-digits : (n : ℤ) → IsDigitText (show_int 32 default_format n)
unfolding show_int show_unsigned
show_int-digits (pos n) = decimal-digits (suc n) n [] tt
show_int-digits (negsuc n) = (omega arith, decimal-digits (suc (suc n)) (suc n) [] tt)

-- An int is read back from what is printed for it in decimal.
pub extract_int-show_int :
    (before n : ℤ) → IsInt n → extract_int before (show_int 32 default_format n) ≡ n
unfolding extract_int show_int show_unsigned
extract_int-show_int before (pos n) h =
    let (c, cs, e) = decimal_cons n in
    rw (signed-decimal n, leading-decimal n, skip-decimal n, e) (ground arith)
extract_int-show_int before (negsuc n) h = rw (leading-decimal (suc n)) (ground arith)

-- The two digits of a byte.
abbrev pub two_digits : ℕ → String
two_digits b = digit (b / 16) ∷ digit (b % 16) ∷ []

abbrev zero_filled : Format → Format
zero_filled f = record f { hex = true; fill = b'0'; width = 2 }

pub byte_text :
    (f : Format) (b : ℕ)
    → f.hex ≡ true
    → f.fill ≡ b'0'
    → f.width ≡ 2
    → b < 256
    → pad f (show_unsigned f b) ≡ two_digits b
unfolding pad show_unsigned hexadecimal_loop
byte_text f zero x e w h = rw (x, e, w) refl
byte_text f (suc b) x e w h = elim (Bool-cases (ltb (suc b) 16)) [
  | inl low ↦
      let n : suc b < 16 = ltb→lt (suc b) 16 low in
      let q : suc b / 16 ≡ 0 = omega arith in
      let r : suc b % 16 ≡ suc b = omega arith in rw (x, e, w, low, q, r) refl
  | inr high ↦
      let n : ltb (suc b / 16) 16 ≡ true = lt→ltb (suc b / 16) 16 (omega arith) in
      rw (x, e, w, high, n) refl
]

-- A byte from its two digits.
abbrev pub digit_value : ℕ → ℕ
digit_value c = if is_digit c then c - b'0' else c - b'a' + 10

abbrev pub parse_bytes : String → List ℕ
parse_bytes [] = []
parse_bytes (c ∷ []) = []
parse_bytes (c ∷ d ∷ cs) = (digit_value c * 16 + digit_value d) ∷ parse_bytes cs

abbrev pub IsBytes : List ℕ → Type 0
IsBytes = All (λ b. b < 256)

digit_value-digit : (d : ℕ) → d < 16 → digit_value (digit d) ≡ d
digit_value-digit d h = ground arith

-- The text that a HexToken is printed as: two digits for each byte.
abbrev pub hex_text : List ℕ → String
hex_text [] = []
hex_text (b ∷ bytes) = two_digits b ++ hex_text bytes

pub hex_loop_lem :
    (f : Format) (bytes : List ℕ)
    → f.fill ≡ b'0'
    → IsBytes bytes
    → hex_loop f bytes ≡ hex_text bytes
unfolding hex_loop
hex_loop_lem f [] e h = refl
hex_loop_lem f (b ∷ bytes) e h =
    let f' : Format = record f { hex = true; width = 2 } in
    rw (byte_text f' b refl e refl h.0, hex_loop_lem (record f' { width = 0 }) bytes e h.1) refl

pub parse_bytes-hex_text : (bytes : List ℕ) → IsBytes bytes → parse_bytes (hex_text bytes) ≡ bytes
parse_bytes-hex_text [] h = refl
parse_bytes-hex_text (b ∷ bytes) (h, hs) =
    let high : b / 16 < 16 = omega arith in
    let low : b % 16 < 16 = omega arith in
    let whole : b / 16 * 16 + b % 16 ≡ b = omega arith in
    rw
      (
        digit_value-digit (b / 16) high,
        digit_value-digit (b % 16) low,
        whole,
        parse_bytes-hex_text bytes hs,
      )
      refl
