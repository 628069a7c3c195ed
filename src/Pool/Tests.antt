-- ===== src/Pool/Tests.antt =====
-- The theorem at a pool of two goods, of which one is accessed.
use ren_general.Base.{◌≡◌, refl, some, [], ◌∷◌, All}
use ren_general.Exception.{ok}
use ren_general.Pool.{Pool, find_good, prune}
use ren_general.Pool.Prune.{Bound, prune-Bound}

abbrev pool : Pool
pool = record { goods = (10, 2) ∷ (20, 0) ∷ []; items = (1, 10) ∷ (2, 20) ∷ []; deleted = [] }

prune-Bound_example :
    (p' : Pool) × (prune pool ≡ ok p')
    × (find_good 10 p'.goods ≡ some 2)
    × All (λ item. Bound p'.goods item.1) p'.items
prune-Bound_example = prune-Bound pool 10 1 ((2, refl), refl, ((0, refl), refl, tt)) refl
