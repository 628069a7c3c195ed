-- ===== src/Endian.antt =====
-- endian.h: class Endian. A value of a type of `size` bytes is its bit pattern, a number below
-- 256 ^ size, of which a signed type takes the upper half for the negative values; the class is for
-- sizes 1, 2, 4 and 8. `sizeof` counts bytes, and the tests for 16 and 32 are the source's.
pub mod Swap
pub mod Tests
use ren_general.Base.{
  ℕ, zero, suc, ◌+◌, ◌-◌, ◌*◌, ◌/◌, ◌%◌, ◌^◌, Bool, true, false, ◌&&◌, ◌==◌, leb, if◌then◌else◌,
}

-- __builtin_bswap32 and __builtin_bswap64: the bytes of a word in reverse.
unfoldable pub bswap : ℕ → ℕ → ℕ
bswap zero x = 0
bswap (suc n) x = (x % 256) * 256 ^ n + bswap n (x / 256)

abbrev pub same : Bool → Bool → Bool
same true true = true
same true false = false
same false true = false
same false false = true

-- (x << 8) | (x >> 8) of a 16-bit word, promoted to int.
abbrev pub swap_16 : ℕ → ℕ
swap_16 x = (x % 2 ^ 16) * 256 + (x % 2 ^ 16) / 256

abbrev pub is_negative : (signed : Bool) → (size : ℕ) → ℕ → Bool
is_negative signed size input = signed && leb (256 ^ size / 2) input

-- static_cast<uint64_t>, which extends the sign of a signed type, and static_cast<uint32_t>.
unfoldable pub widen : (signed : Bool) → (size : ℕ) → ℕ → ℕ
widen signed size input =
    if is_negative signed size input then (input + 2 ^ 64 - 256 ^ size) % 2 ^ 64 else input % 2 ^ 64

unfoldable pub swap : (host little signed : Bool) → (size : ℕ) → ℕ → ℕ
unfolding bswap widen
swap host little signed size input =
    if same host little
    then input
    else if size == 8
    then input
    else if size == 16
    then swap_16 (widen signed size input) % 256 ^ size
    else if size == 32
    then bswap 4 (widen signed size input % 2 ^ 32) % 256 ^ size
    else bswap 8 (widen signed size input) % 256 ^ size

-- The stored member, as the constructor and the assignment set it, and the conversion back.
pub record Endian : Type 0 where
  pub stored : ℕ

unfoldable pub store : (host little signed : Bool) → (size : ℕ) → ℕ → Endian
store host little signed size x = record { stored = swap host little signed size x }

unfoldable pub value : (host little signed : Bool) → (size : ℕ) → Endian → ℕ
value host little signed size e = swap host little signed size e.stored
