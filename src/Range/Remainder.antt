-- ===== src/Range/Remainder.antt =====
-- Mod answers the remainder that is never negative.
use native.Mathlib.Nat.{zero-mod, mod-lt, mod_self, mod-mod, add-mod-mod}
use ren_general.Base.{
  ℕ, suc, ◌+◌, ◌-◌, ◌%◌, ◌^◌, ◌<◌, ◌≡◌, refl, sym, ap, ◌∙◌, inl, inr, arith, ◌==◌, if◌then◌else◌,
  Bool-cases, ==_iff,
}
use ren_general.Scalar.Exact.{ℤ, pos, negsuc, pos_part, neg_part, sub_ℕ}
use ren_general.Range.{rem, to_unsigned, is_negative, add_ℤ, mod_int}

-- What Mod makes of an intermediate value.
abbrev settled : ℤ → ℕ → ℕ
settled intermediate size =
    to_unsigned (if is_negative intermediate then add_ℤ intermediate (pos size) else intermediate)

settled_pos : (r size : ℕ) → r < size → size < 2 ^ 31 → settled (sub_ℕ r 0) size ≡ r
settled_pos r size h k = ground arith

settled_neg :
    (r size : ℕ)
    → r < size
    → size < 2 ^ 31
    → settled (sub_ℕ 0 r) size ≡ (if r == 0 then 0 else size - r)
settled_neg r size h k = ground arith

plus_zero : (n : ℕ) → n + 0 ≡ n
plus_zero n = omega arith

rem_pos : (a size : ℕ) → rem (pos a) (pos size) ≡ sub_ℕ (a % size) 0
rem_pos a size = rw (plus_zero size, zero-mod size) refl

rem_neg : (a size : ℕ) → rem (negsuc a) (pos size) ≡ sub_ℕ 0 (suc a % size)
rem_neg a size = rw (plus_zero size, zero-mod size) refl

zero_plus : (n : ℕ) → 0 + n ≡ n
zero_plus n = omega arith

completes :
    (n r size : ℕ)
    → r ≡ n % size
    → r < size
    → ((if r == 0 then 0 else size - r) + n) % size ≡ 0 % size
completes n r size e h = elim (Bool-cases (r == 0)) [
  | inl z ↦ rw (z, zero_plus n) (sym e ∙ (==_iff r 0).0 z ∙ sym (zero-mod size))
  | inr z ↦ rw z (
      sym (add-mod-mod (size - r) n size)
      ∙ ap (λ k. (size - r + k) % size) (sym e)
      ∙ rw (cancels) (mod_self size)
      ∙ sym (zero-mod size))
]
  where
    cancels : size - r + r ≡ size
    cancels = omega arith

below : (r size : ℕ) → 0 < size → (if r == 0 then 0 else size - r) < size
below r size h = ground arith

-- For a positive size within int, Mod answers below the size, and differs from its input by a
-- multiple of the size.
pub mod_int_lem :
    (input : ℤ) (size : ℕ)
    → 0 < size
    → size < 2 ^ 31
    → (mod_int input (pos size) < size)
      × ((mod_int input (pos size) + neg_part input) % size ≡ pos_part input % size)
unfolding mod_int
mod_int_lem (pos a) size h k =
    rw (rem_pos a size, settled_pos (a % size) size (mod-lt a h) k)
      (mod-lt a h, rw (plus_zero (a % size)) (mod-mod a size))
mod_int_lem (negsuc a) size h k =
    rw (rem_neg a size, settled_neg (suc a % size) size (mod-lt (suc a) h) k)
      (below (suc a % size) size h, completes (suc a) (suc a % size) size refl (mod-lt (suc a) h))
