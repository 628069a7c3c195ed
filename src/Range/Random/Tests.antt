-- ===== src/Range/Random/Tests.antt =====
-- The theorem on random values at a generator.
use ren_general.Base.{ℕ, ◌*◌, ◌%◌, ◌≡◌, ◌⊎◌, refl, true, false}
use ren_general.Exception.{ok}
use ren_general.Scalar.Exact.{ℤ, pos, negsuc, leb_ℤ}
use ren_general.Range.Random.{rander_d}
use ren_general.Range.Random.Drawn.{rander_d_lem}

abbrev generator : ℕ → ℕ
generator n = n * 1103 % 32768

rander_d_lem_example :
    (v : ℤ) × (after : ℕ) × (rander_d generator (negsuc 4) (pos 7) 5 ≡ ok (v, after))
    × (leb_ℤ (negsuc 4) v ≡ true)
    × ((leb_ℤ (pos 7) v ≡ false) ⊎ ((leb_ℤ (pos 7) (negsuc 4) ≡ true) × (v ≡ negsuc 4)))
rander_d_lem_example = rander_d_lem generator (negsuc 4) (pos 7) 5 refl refl refl refl
