-- ===== src/Collection/Tests.antt =====
-- A loop over a class of four values.
use ren_general.Base.{refl, [], ◌∷◌, ◌*◌, ◌≡◌}
use ren_general.Exception.{ok}
use ren_general.Collection.{begin, visit}

visit_runs : visit 4 (λ i. i * i) 5 (begin 4 (λ i. i * i)) ≡ ok (0 ∷ 1 ∷ 4 ∷ 9 ∷ [])
unfolding visit begin
visit_runs = refl
