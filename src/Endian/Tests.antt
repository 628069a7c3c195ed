-- ===== src/Endian/Tests.antt =====
-- The theorems on a little-endian host.
use ren_general.Base.{◌≡◌, refl, inl, inr, true, false, arith}
use ren_general.Endian.{bswap, store, value}
use ren_general.Endian.Swap.{sign_only, value-store_small}

swaps : bswap 4 0x1122_3344 ≡ 0x4433_2211
unfolding bswap
swaps = refl

-- -21555 of int16_t.
value-store_small_example :
    ((store true false true 2 0xabcd).stored ≡ sign_only true 2 0xabcd)
    × (value true false true 2 (store true false true 2 0xabcd) ≡ sign_only true 2 0xabcd)
value-store_small_example =
    value-store_small true false true 2 0xabcd refl (inr (inl refl)) (omega arith)
