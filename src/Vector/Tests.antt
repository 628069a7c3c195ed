-- ===== src/Vector/Tests.antt =====
-- The theorems at vectors of whole numbers, all of them finite.
use ren_general.Base.{ltb, Bool}
use ren_general.Scalar.Exact.{ℤ, pos, negsuc, whole}
use ren_general.Vector.{Vector}

-- As a float would, a whole number counts as finite below a bound.
abbrev small : ℤ → Bool
small (pos n) = ltb n 1000
small (negsuc n) = ltb n 1000

abbrev norm : ℤ → ℤ
norm a = a

abbrev left : Vector whole small norm
left = record { data_0 = pos 1; data_1 = pos 2; data_2 = negsuc 2 }

abbrev up : Vector whole small norm
up = record { data_0 = pos 0; data_1 = pos 5; data_2 = pos 7 }
