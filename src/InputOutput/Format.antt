-- ===== src/InputOutput/Format.antt =====
-- The C++ library's formatting of numbers, as inputoutput.cxx uses it: the flags of a stream, what
-- `<<` inserts for an integer, and what `>>` extracts for one. The tokens of OutputStream that are
-- formatted through a stream of their own are here too.
pub mod Digits
use ren_general.Base.{
  String, ℕ, zero, suc, ◌+◌, ◌-◌, ◌*◌, ◌/◌, ◌%◌, ◌^◌, Bool, true, false, not, ◌&&◌, ◌||◌, List, [],
  ◌∷◌, ◌++◌, ◌==◌, ltb, leb, if◌then◌else◌, length,
}
use ren_general.Scalar.Exact.{ℤ, pos, negsuc}

-- The flags that the source sets: std::hex, std::setfill and std::setw.
pub record Format : Type 0 where
  pub hex : Bool
  pub fill : ℕ
  pub width : ℕ

abbrev pub default_format : Format
default_format = record { hex = false; fill = b' '; width = 0 }

abbrev pub digit : ℕ → ℕ
digit d = if ltb d 10 then b'0' + d else b'a' + (d - 10)

-- The digits of a number in front of others, the highest first; a number below the fuel has enough.
unfoldable pub decimal_loop : ℕ → ℕ → String → String
decimal_loop zero n out = out
decimal_loop (suc fuel) n out =
    let rest = decimal_loop fuel (n / 10) (digit (n % 10) ∷ out) in
    if ltb n 10 then digit n ∷ out else rest

unfoldable pub hexadecimal_loop : ℕ → ℕ → String → String
hexadecimal_loop zero n out = out
hexadecimal_loop (suc fuel) n out =
    let rest = hexadecimal_loop fuel (n / 16) (digit (n % 16) ∷ out) in
    if ltb n 16 then digit n ∷ out else rest

unfoldable pub show_unsigned : Format → ℕ → String
unfolding decimal_loop hexadecimal_loop
show_unsigned f n = if f.hex then hexadecimal_loop (suc n) n [] else decimal_loop (suc n) n []

-- An int of `bits` bits: std::hex prints its bit pattern.
unfoldable pub show_int : ℕ → Format → ℤ → String
unfolding show_unsigned
show_int bits f (pos n) = show_unsigned f n
show_int bits f (negsuc n) =
    if f.hex then show_unsigned f (2 ^ bits - suc n) else b'-' ∷ show_unsigned f (suc n)

abbrev pub replicate : ℕ → ℕ → String
replicate zero c = []
replicate (suc n) c = c ∷ replicate n c

-- What is inserted stands to the right in the width.
unfoldable pub pad : Format → String → String
pad f s = replicate (f.width - length s) f.fill ++ s

-- The loop of the HexToken operators: what is printed, by `setw(2) << hex << static_cast<int>`.
unfoldable pub hex_loop : Format → List ℕ → String
unfolding show_unsigned pad
hex_loop f [] = []
hex_loop f (b ∷ bytes) =
    let f' : Format = record f { hex = true; width = 2 } in
    pad f' (show_unsigned f' b) ++ hex_loop (record f' { width = 0 }) bytes

-- StringHexToken: a stream of its own.
unfoldable pub string_hex : (value pad_to_count : ℕ) → String
unfolding show_unsigned pad
string_hex value pad_to_count =
    let f : Format =
      if ltb 0 pad_to_count
      then record default_format { width = pad_to_count; fill = b'0' }
      else default_format in
    let f' : Format = record f { hex = true } in pad f' (show_unsigned f' value)

abbrev pub is_space : ℕ → Bool
is_space c = c == b' ' || (leb 9 c && leb c 13)

unfoldable pub skip_space : String → String
skip_space [] = []
skip_space (c ∷ cs) = let rest = skip_space cs in if is_space c then rest else c ∷ cs

abbrev pub is_digit : ℕ → Bool
is_digit c = leb b'0' c && leb c b'9'

-- The number that the leading digits spell, behind what was read.
unfoldable pub leading : ℕ → String → ℕ
leading n [] = n
leading n (c ∷ cs) = let rest = leading (n * 10 + (c - b'0')) cs in if is_digit c then rest else n

-- The sign that std::num_get takes, and the text behind it.
abbrev pub signed : String → Bool × String
signed [] = (false, [])
signed (c ∷ cs) =
    if c == b'-' then (true, cs) else if c == b'+' then (false, cs) else (false, c ∷ cs)

-- `Convert >> Data`: a line of spaces leaves the data as it was.
abbrev pub kept {ℓ} : {A : Type ℓ} → A → A → String → A
kept before extracted [] = before
kept before extracted (c ∷ cs) = extracted

-- For int: a text with no number gives 0, and one out of range the nearest int.
unfoldable pub extract_int : ℤ → String → ℤ
unfolding skip_space leading
extract_int before s =
    let (negative, digits) = signed (skip_space s) in
    let n = leading 0 digits in
    kept before
      (if negative
        then (if ltb (2 ^ 31) n
            then negsuc (2 ^ 31 - 1)
            else if n == 0
            then pos 0
            else negsuc (n - 1))
        else if ltb n (2 ^ 31)
        then pos n
        else pos (2 ^ 31 - 1))
      (skip_space s)

-- For unsigned int, which takes a sign and wraps.
unfoldable pub extract_unsigned : ℕ → String → ℕ
unfolding skip_space leading
extract_unsigned before s =
    let (negative, digits) = signed (skip_space s) in
    let n = leading 0 digits in
    kept before
      (if leb (2 ^ 32) n then 2 ^ 32 - 1 else if negative then (2 ^ 32 - n) % 2 ^ 32 else n)
      (skip_space s)

-- For bool: 0 and what is no number give false.
unfoldable pub extract_bool : Bool → String → Bool
unfolding skip_space leading
extract_bool before s =
    kept before (not (leading 0 ((signed (skip_space s)).1) == 0)) (skip_space s)
