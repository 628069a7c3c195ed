-- ===== src/Region/Tests.antt =====
-- The theorems at regions of whole numbers.
use ren_general.Base.{ℕ, Bool, true}
use ren_general.Scalar.Exact.{ℤ, pos, whole}
use ren_general.Vector.Flat.{FlatVector}
use ren_general.Region.{Region}

abbrev any : ℤ → Bool
any a = true

abbrev norm : ℤ → ℤ
norm a = a

abbrev corner : ℕ → ℕ → FlatVector whole any norm
corner x y = record { data_0 = pos x; data_1 = pos y }

abbrev region : Region whole any norm
region = record { start = corner 10 10; size = corner 5 5 }
