-- ===== src/Interzord/Ownership.antt =====
-- Who frees an interpolater.
use mathlib.Core.Path.{subst, sym}
use ren_general.Base.{ℕ, ◌+◌, ◌≡◌, refl, some, List, ◌∷◌, arith, ==_refl, count}
use ren_general.Scalar.{Scalar}
use ren_general.Interzord.{Interpolater, Interzord, copy, destruct}

module _ (s : Scalar) (sin : s.F → s.F) (pow : s.F → s.F → s.F) where
  destruct_lem :
      (z : Interzord s sin pow) (p : ℕ) (kind : Interpolater) (deleted : List ℕ)
      → z.zord ≡ some (p, kind)
      → destruct s sin pow z deleted ≡ p ∷ deleted
  unfolding destruct
  destruct_lem z p kind deleted e =
      subst (λ owned. destruct s sin pow (record z { zord = owned }) deleted ≡ p ∷ deleted) (sym e)
        refl

  -- An Interzord and one constructed as its copy, both destructed, free the interpolater twice.
  pub destruct-copy :
      (z : Interzord s sin pow) (p : ℕ) (kind : Interpolater) (deleted : List ℕ)
      → z.zord ≡ some (p, kind)
      → count p (destruct s sin pow (copy s sin pow z) (destruct s sin pow z deleted))
        ≡ count p deleted + 2
  unfolding copy
  destruct-copy z p kind deleted e =
      rw
        (
          destruct_lem z p kind deleted e,
          destruct_lem (copy s sin pow z) p kind (p ∷ deleted) e,
          ==_refl p,
        )
        (omega arith)
