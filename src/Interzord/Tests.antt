-- ===== src/Interzord/Tests.antt =====
-- The theorems at an Interzord of whole numbers.
use ren_general.Base.{◌≡◌, refl, some}
use ren_general.Exception.{ok}
use ren_general.Scalar.Exact.{ℤ, pos, whole, whole-Ordered}
use ren_general.Interzord.{linear, Interzord}
use ren_general.Interzord.Bounds.{AtMostOne, updates, act, act-AtMostOne}

abbrev sin : ℤ → ℤ
sin a = a

abbrev pow : ℤ → ℤ → ℤ
pow a b = a

abbrev zord : Interzord whole sin pow
zord = record {
  start = pos 2;
  current = pos 2;
  end = pos 9;
  total_percent = pos 0;
  zord = some (7, linear);
}

act-AtMostOne_example :
    (z' : Interzord whole sin pow) × (act whole sin pow whole-Ordered zord (updates (pos 1))
      ≡ ok z')
    × AtMostOne whole sin pow whole-Ordered z'
    × (z'.zord ≡ some (7, linear))
act-AtMostOne_example =
    act-AtMostOne whole sin pow whole-Ordered zord 7 linear (updates (pos 1)) refl refl refl
