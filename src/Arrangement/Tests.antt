-- ===== src/Arrangement/Tests.antt =====
-- The theorems at a mapper with two As and two Bs.
use ren_general.Base.{◌≡◌, refl, [], ◌∷◌, arith}
use ren_general.Exception.{ok, IfOk}
use ren_general.Arrangement.{ManyToOneMapper, connect}
use ren_general.Arrangement.Invariant.{IsValid}
use ren_general.Arrangement.Preserve.{apply, connects, apply-IsValid}

abbrev mapper : ManyToOneMapper
mapper = record { a = 1 ∷ 2 ∷ []; mappings = (10, 1 ∷ []) ∷ (20, 1 ∷ 2 ∷ []) ∷ [] }

mapper-IsValid : IsValid mapper
mapper-IsValid = record {
  a_once = λ x. ground arith;
  b_once = λ x. ground arith;
  within = (λ x. ground arith, (λ x. ground arith, tt));
}

connects_runs :
    connect mapper 2 10
    ≡ ok (record { a = 1 ∷ 2 ∷ []; mappings = (10, 1 ∷ 2 ∷ []) ∷ (20, 1 ∷ 2 ∷ []) ∷ [] })
unfolding connect
connects_runs = refl

apply-IsValid_example : IfOk IsValid (apply mapper (connects 2 10))
apply-IsValid_example = apply-IsValid mapper (connects 2 10) mapper-IsValid
