-- ===== src/Factory/Tests.antt =====
-- The theorems at a factory in use.
use ren_general.Base.{ℕ, ◌≡◌, refl, true, not, ◌||◌, some, List, [], ◌∷◌, if◌then◌else◌, count}
use ren_general.Exception.{ok, abort}
use ren_general.Lifetime.Deleter.Contract.{Ledger, run}
use ren_general.Lifetime.Deleter.{delete_all}
use ren_general.Factory.{
  Factory, destruct, update, update_loop, update_product, delete_each, delete_at, delete_product,
  should_be_deleted, new_product,
}
use ren_general.Factory.Ownership.{
  Call, adds, deletes, cleans, updates, container, all_deletable, destruct-act,
}

abbrev calls : List Call
calls = adds 1 ∷ adds 2 ∷ deletes 1 ∷ updates (λ p. 3 ∷ p ∷ []) ∷ adds 3 ∷ cleans ∷ deletes 3 ∷ []

destruct-act_example :
    (g : Ledger (container true)) × (run (container true) calls ≡ some g)
    × ((freed : List ℕ) × (destruct g.state
          ≡ (if not true || all_deletable g.state.items then ok freed else abort))
        × ((p : ℕ) → count p freed ≡ count p g.into))
destruct-act_example = destruct-act true calls

-- The first product deletes both: the second is freed in the same Update, and the first is not.
abbrev both : Factory
both = record {
  check_on_destruct = true;
  items = new_product 1 ∷ new_product 2 ∷ [];
  deleted = [];
  destroyed = [];
  updated = [];
}

deletes_later :
    ((update (λ p. 1 ∷ 2 ∷ []) both).deleted ≡ 2 ∷ [])
    × ((update (λ p. 1 ∷ 2 ∷ []) both).updated ≡ 1 ∷ [])
unfolding update update_loop update_product delete_each delete_at delete_product should_be_deleted
    new_product delete_all
deletes_later = (refl, refl)
