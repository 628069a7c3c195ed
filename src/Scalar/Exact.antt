-- ===== src/Scalar/Exact.antt =====
-- Whole numbers as scalars: a value at which the laws hold, for the witnesses.
use ren_general.Base.{ℕ, suc, ◌+◌, ◌-◌, ◌*◌, ◌/◌, ◌≡◌, Bool, true, arith, leb, if◌then◌else◌}
use ren_general.Scalar.{Scalar, Ordered}

-- `negsuc n` is -(n + 1).
pub data ℤ : Type 0 where
  pos : ℕ → ℤ
  negsuc : ℕ → ℤ

abbrev pub pos_part : ℤ → ℕ
pos_part (pos n) = n
pos_part (negsuc n) = 0

abbrev pub neg_part : ℤ → ℕ
neg_part (pos n) = 0
neg_part (negsuc n) = suc n

abbrev pub sub_ℕ : ℕ → ℕ → ℤ
sub_ℕ a b = if leb b a then pos (a - b) else negsuc (b - a - 1)

abbrev pub leb_ℤ : ℤ → ℤ → Bool
leb_ℤ a b = leb (pos_part a + neg_part b) (pos_part b + neg_part a)

abbrev pub whole : Scalar
whole = record {
  F = ℤ;
  add = λ a b. sub_ℕ (pos_part a + pos_part b) (neg_part a + neg_part b);
  sub = λ a b. sub_ℕ (pos_part a + neg_part b) (neg_part a + pos_part b);
  mul = λ a b.
      sub_ℕ (pos_part a * pos_part b + neg_part a * neg_part b)
        (pos_part a * neg_part b + neg_part a * pos_part b);
  div = λ a b. sub_ℕ (pos_part a / (pos_part b + neg_part b)) 0;
  neg = λ a. sub_ℕ (neg_part a) (pos_part a);
  leb = leb_ℤ;
  ratio = λ n d. pos (n / d);
}

leb_ℤ_trans : (a b c : ℤ) → leb_ℤ a b ≡ true → leb_ℤ b c ≡ true → leb_ℤ a c ≡ true
leb_ℤ_trans a b c h k = ground arith

pub whole-Ordered : Ordered whole
whole-Ordered = record {
  le_refl = λ a. ground arith;
  le_trans = leb_ℤ_trans;
  le_total = λ a b h. ground arith;
}
