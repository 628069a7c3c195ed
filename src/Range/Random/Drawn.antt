-- ===== src/Range/Random/Drawn.antt =====
-- Where the random values lie.
use native.Mathlib.Nat.{mod-lt}
use ren_general.Base.{
  ℕ, suc, ◌+◌, ◌-◌, ◌%◌, ◌<◌, ◌≡◌, ◌⊎◌, refl, inl, inr, true, false, Bool-cases, arith, leb, ◌==◌,
  leb→le, ◌≤◌, ◌&&◌, ◌∙◌,
}
use ren_general.Exception.{ok}
use ren_general.Scalar.Exact.{ℤ, pos, pos_part, neg_part, sub_ℕ, leb_ℤ, whole, whole-Ordered}
use ren_general.Range.{rem}
use ren_general.Range.Random.{fits, rander_d, is_zero}

zero_mod : (k : ℕ) → 0 % k ≡ 0
zero_mod k = grind arith

sub_ℕ_zero : (n : ℕ) → sub_ℕ n 0 ≡ pos n
sub_ℕ_zero n = grind arith

-- The size of a difference below zero.
size : (m n : ℕ) → m < n → pos_part (sub_ℕ m n) + neg_part (sub_ℕ m n) ≡ n - m
size m n h = ground arith

add_bounds :
    (a b : ℤ) (r : ℕ)
    → r < neg_part a + pos_part b - (pos_part a + neg_part b)
    → (leb_ℤ a (whole.add a (pos r)) ≡ true) × (leb_ℤ b (whole.add a (pos r)) ≡ false)
add_bounds a b r h = (ground arith, ground arith)

-- What an addition of a remainder to an end comes to.
add-rem :
    (a b : ℤ) (n : ℕ)
    → leb_ℤ b a ≡ false
    → (leb_ℤ a (whole.add a (rem (pos n) (whole.sub a b))) ≡ true)
      × (leb_ℤ b (whole.add a (rem (pos n) (whole.sub a b))) ≡ false)
add-rem a b n h =
    let below : pos_part a + neg_part b < neg_part a + pos_part b = ground arith in
    let k = neg_part a + pos_part b - (pos_part a + neg_part b) in
    rw
      (
        size (pos_part a + neg_part b) (neg_part a + pos_part b) below,
        zero_mod k,
        sub_ℕ_zero (n % k),
      )
      (add_bounds a b (n % k) (mod-lt n (omega arith)))

zero_sub : (m n : ℕ) → (m == n) ≡ true → m - n ≡ 0
zero_sub m n e = ground arith

suc_sub : (m n : ℕ) → n ≤ m → (m == n) ≡ false → m - n ≡ suc (m - n - 1)
suc_sub m n h e = ground arith

is_zero-pos : (m n : ℕ) → n ≤ m → is_zero (pos (m - n)) ≡ (m == n)
is_zero-pos m n h = elim (Bool-cases (m == n)) [
  | inl e ↦ rw (e, zero_sub m n e) refl
  | inr e ↦ rw (e, suc_sub m n h e) refl
]

-- A difference is zero where the parts are equal.
is_zero-sub_ℕ : (m n : ℕ) → is_zero (sub_ℕ m n) ≡ (m == n)
is_zero-sub_ℕ m n = elim (Bool-cases (leb n m)) [
  | inl e ↦ rw e (is_zero-pos m n (leb→le n m e))
  | inr e ↦ rw e (ground arith)
]

is_zero-sub : (a b : ℤ) → is_zero (whole.sub b a) ≡ (leb_ℤ a b && leb_ℤ b a)
is_zero-sub a b = is_zero-sub_ℕ (pos_part b + neg_part a) (neg_part b + pos_part a) ∙ ground arith

-- A difference that fits an int does so the other way round, and so does what lies between two ints.
fits-sub : (a b : ℤ) → leb_ℤ a b ≡ true → fits (whole.sub b a) ≡ true → fits (whole.sub a b) ≡ true
fits-sub a b h f = ground (arith, h, f)

fits-between :
    (a b v : ℤ)
    → leb_ℤ a v ≡ true
    → leb_ℤ b v ≡ false
    → fits a ≡ true
    → fits b ≡ true
    → fits v ≡ true
fits-between a b v h k f g = ground (arith, h, k, f, g)

-- RanderD of two ints in order, whose difference is an int, meets no overflow, and gives a value that
-- is not below the first and is below the second, or is the first where both are equal.
pub rander_d_lem :
    (rand : ℕ → ℕ) (low high : ℤ) (drawn : ℕ)
    → fits low ≡ true
    → fits high ≡ true
    → fits (whole.sub high low) ≡ true
    → leb_ℤ low high ≡ true
    → (v : ℤ) × (after : ℕ) × (rander_d rand low high drawn ≡ ok (v, after))
      × (leb_ℤ low v ≡ true)
      × ((leb_ℤ high v ≡ false) ⊎ ((leb_ℤ high low ≡ true) × (v ≡ low)))
unfolding rander_d
rander_d_lem rand low high drawn f g d h = elim (Bool-cases (leb_ℤ high low)) [
  | inl k ↦ (
    low,
    drawn,
    rw (d, is_zero-sub low high, h, k) refl,
    whole-Ordered.le_refl low,
    inr (k, refl),
  )
  | inr k ↦
      let v = whole.add low (rem (pos (rand drawn)) (whole.sub low high)) in
      let (above, below) = add-rem low high (rand drawn) k in
      let sum = fits-between low high v above below f g in
      (
        v,
        suc drawn,
        rw (d, is_zero-sub low high, h, k, fits-sub low high h d, sum) refl,
        above,
        inl below,
      )
]
