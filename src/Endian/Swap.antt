-- ===== src/Endian/Swap.antt =====
-- What is stored on a host of the other byte order, and what is read back.
use ren_general.Base.{
  ℕ, ◌∙◌, ◌-◌, ◌%◌, ◌^◌, ◌<◌, ◌≡◌, refl, ◌⊎◌, inl, inr, Bool, true, false, arith, if◌then◌else◌,
  Bool-cases,
}
use ren_general.Endian.{bswap, is_negative, widen, same, swap, store, value}

-- The sizes below 8 that the class is for.
abbrev pub IsSmall : ℕ → Type 0
IsSmall size = (size ≡ 1) ⊎ (size ≡ 2) ⊎ (size ≡ 4)

-- What the swap makes of a value: -1 of a negative one and 0 of any other.
abbrev pub sign_only : (signed : Bool) → (size : ℕ) → ℕ → ℕ
sign_only signed size x = if is_negative signed size x then 256 ^ size - 1 else 0

module _ (signed : Bool) where
  bswap_1 : (x : ℕ) → x < 256 ^ 1 → bswap 8 (widen signed 1 x) % 256 ^ 1 ≡ sign_only signed 1 x
  unfolding bswap widen
  bswap_1 x h = elim (Bool-cases (is_negative signed 1 x)) [
    | inl e ↦ rw e (omega (arith, e))
    | inr e ↦ rw e (omega arith)
  ]

  bswap_2 : (x : ℕ) → x < 256 ^ 2 → bswap 8 (widen signed 2 x) % 256 ^ 2 ≡ sign_only signed 2 x
  unfolding bswap widen
  bswap_2 x h = elim (Bool-cases (is_negative signed 2 x)) [
    | inl e ↦ rw e (omega (arith, e))
    | inr e ↦ rw e (omega arith)
  ]

  bswap_4 : (x : ℕ) → x < 256 ^ 4 → bswap 8 (widen signed 4 x) % 256 ^ 4 ≡ sign_only signed 4 x
  unfolding bswap widen
  bswap_4 x h = elim (Bool-cases (is_negative signed 4 x)) [
    | inl e ↦ rw e (omega (arith, e))
    | inr e ↦ rw e (omega arith)
  ]

  swap-small :
      (host little : Bool) (size x : ℕ)
      → same host little ≡ false
      → IsSmall size
      → x < 256 ^ size
      → swap host little signed size x ≡ sign_only signed size x
  unfolding swap
  swap-small host little size x d (inl e) h = rw (e, d) (bswap_1 x (rw e at h))
  swap-small host little size x d (inr (inl e)) h = rw (e, d) (bswap_2 x (rw e at h))
  swap-small host little size x d (inr (inr e)) h = rw (e, d) (bswap_4 x (rw e at h))

  -- On a host of the same byte order a value is stored as it is and read back, and so is one of 8
  -- bytes on any host.
  pub value-store-same :
      (host little : Bool) (size x : ℕ)
      → (same host little ≡ true) ⊎ (size ≡ 8)
      → ((store host little signed size x).stored ≡ x)
        × (value host little signed size (store host little signed size x) ≡ x)
  unfolding store value swap
  value-store-same host little size x (inl e) = rw e (refl, refl)
  value-store-same host little size x (inr e) = rw e (ground arith)

-- What the swap gives is swapped to itself.
sign_only_kept :
    (signed : Bool) (size x : ℕ)
    → IsSmall size
    → (sign_only signed size x < 256 ^ size)
      × (sign_only signed size (sign_only signed size x) ≡ sign_only signed size x)
sign_only_kept signed size x (inl e) = rw e (ground arith)
sign_only_kept signed size x (inr (inl e)) = rw e (ground arith)
sign_only_kept signed size x (inr (inr e)) = rw e (ground arith)

-- On a host of the other byte order every value of an integer type of 1, 2 or 4 bytes is stored as 0,
-- and is read back as 0, unless it is a negative value of a signed type: that is stored as -1, and
-- read back as -1.
pub value-store_small :
    (host little signed : Bool) (size x : ℕ)
    → same host little ≡ false
    → IsSmall size
    → x < 256 ^ size
    → ((store host little signed size x).stored ≡ sign_only signed size x)
      × (value host little signed size (store host little signed size x) ≡ sign_only signed size x)
unfolding store value
value-store_small host little signed size x d small h =
    let swapped = swap-small signed host little size x d small h in
    let (below, kept) = sign_only_kept signed size x small in
    (swapped, rw swapped (swap-small signed host little size _ d small below ∙ kept))
