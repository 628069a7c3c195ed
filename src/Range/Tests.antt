-- ===== src/Range/Tests.antt =====
-- The theorems at numbers and ranges of whole numbers.
use ren_general.Base.{◌≡◌, ◌+◌, ◌%◌, ◌<◌, refl, arith}
use ren_general.Scalar.Exact.{pos, negsuc, whole, neg_part, pos_part}
use ren_general.Range.{Range, mod_int}
use ren_general.Range.Remainder.{mod_int_lem}

mod_int_runs : mod_int (negsuc 6) (pos 5) ≡ 3
unfolding mod_int
mod_int_runs = refl

mod_int_lem_example :
    (mod_int (negsuc 6) (pos 5) < 5)
    × ((mod_int (negsuc 6) (pos 5) + neg_part (negsuc 6)) % 5 ≡ pos_part (negsuc 6) % 5)
mod_int_lem_example = mod_int_lem (negsuc 6) 5 (omega arith) (omega arith)

abbrev range : Range whole
range = record { min = pos 2; max = pos 9 }
