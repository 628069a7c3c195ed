-- ===== src/Lifetime/Cleaner/Ownership.antt =====
-- A cleaner frees each item that it was given exactly once.
use ren_general.Base.{
  ℕ, ◌+◌, ◌≡◌, refl, ap, ◌∙◌, inl, inr, false, List, [], ◌∷◌, arith, ◌==◌, if◌then◌else◌,
  Bool-cases, push_back, count, All,
}
use ren_general.Exception.{ok}
use ren_general.Lifetime.Cleaner.{
  Item, Cleaner, new, add_item, destroy, purge_loop, purge, update_loop, update, destruct_loop,
  destruct,
}

abbrev pub addresses : List Item → List ℕ
addresses [] = []
addresses (i ∷ is) = i.address ∷ addresses is

-- How often an address is held or was freed.
abbrev owned : ℕ → Cleaner → ℕ
owned p c = count p (addresses c.items) + count p c.deleted

count-push_back :
    (p q : ℕ) (is : List Item)
    → count p (addresses (push_back is (record { address = q; destroyed = false })))
      ≡ count p (addresses is) + (if q == p then 1 else 0)
count-push_back p q [] = refl
count-push_back p q (i ∷ is) = ground (arith, count-push_back p q is)

addresses-destroy : (p : ℕ) (is : List Item) → addresses (destroy p is) ≡ addresses is
unfolding destroy
addresses-destroy p [] = refl
addresses-destroy p (i ∷ is) = elim (Bool-cases (i.address == p)) [
  | inl e ↦ rw e (ap (λ l. i.address ∷ l) (addresses-destroy p is))
  | inr e ↦ rw e (ap (λ l. i.address ∷ l) (addresses-destroy p is))
]

purge_loop-count :
    (p : ℕ) (is : List Item) (deleted : List ℕ)
    → count p (addresses (purge_loop is deleted).0) + count p (purge_loop is deleted).1
      ≡ count p (addresses is) + count p deleted
unfolding purge_loop
purge_loop-count p [] deleted = refl
purge_loop-count p (i ∷ is) deleted =
    ground (arith, purge_loop-count p is deleted, purge_loop-count p is (i.address ∷ deleted))

update_loop-count :
    (p : ℕ) (is : List Item) (deleted updated : List ℕ)
    → count p (addresses (update_loop is deleted updated).0)
        + count p (update_loop is deleted updated).1
      ≡ count p (addresses is) + count p deleted
unfolding update_loop
update_loop-count p [] deleted updated = refl
update_loop-count p (i ∷ is) deleted updated = ground (
  arith,
  update_loop-count p is deleted (i.address ∷ updated),
  update_loop-count p is (i.address ∷ deleted) updated,
)

pub data Call : Type 0 where
  adds destroys : ℕ → Call
  purges updates : Call

unfoldable pub act : Cleaner → Call → Cleaner
act c (adds p) = add_item c p
act c (destroys p) = record c { items = destroy p c.items }
act c purges = purge c
act c updates = update c

unfoldable pub run : Cleaner → List Call → Cleaner
run c [] = c
run c (e ∷ es) = run (act c e) es

-- The addresses that the calls hand over.
abbrev pub handed_over : List Call → List ℕ
handed_over [] = []
handed_over (adds p ∷ es) = p ∷ handed_over es
handed_over (destroys p ∷ es) = handed_over es
handed_over (purges ∷ es) = handed_over es
handed_over (updates ∷ es) = handed_over es

run-owned :
    (p : ℕ) (c : Cleaner) (es : List Call)
    → owned p (run c es) ≡ owned p c + count p (handed_over es)
unfolding run act add_item purge update
run-owned p c [] = omega arith
run-owned p c (adds q ∷ es) =
    omega (arith, run-owned p (add_item c q) es, count-push_back p q c.items)
run-owned p c (destroys q ∷ es) =
    run-owned p (record c { items = destroy q c.items }) es
    ∙ ap (λ l. count p l + count p c.deleted + count p (handed_over es))
        (addresses-destroy q c.items)
run-owned p c (purges ∷ es) =
    omega (arith, run-owned p (purge c) es, purge_loop-count p c.items c.deleted)
run-owned p c (updates ∷ es) =
    omega (arith, run-owned p (update c) es, update_loop-count p c.items c.deleted c.updated)

warn-run : (c : Cleaner) (es : List Call) → (run c es).warn ≡ c.warn
unfolding run act add_item purge update
warn-run c [] = refl
warn-run c (adds q ∷ es) = warn-run (add_item c q) es
warn-run c (destroys q ∷ es) = warn-run (record c { items = destroy q c.items }) es
warn-run c (purges ∷ es) = warn-run (purge c) es
warn-run c (updates ∷ es) = warn-run (update c) es

destruct_loop_lem :
    (p : ℕ) (is : List Item) (deleted : List ℕ)
    → (freed : List ℕ) × (destruct_loop false is deleted ≡ ok freed)
      × (count p freed ≡ count p (addresses is) + count p deleted)
unfolding destruct_loop
destruct_loop_lem p [] deleted = (deleted, refl, omega arith)
destruct_loop_lem p (i ∷ is) deleted =
    let (freed, runs, all) = destruct_loop_lem p is (i.address ∷ deleted) in
    (freed, runs, omega (arith, all))

-- A cleaner that does not warn is destructed without a failed assertion after any use, and then
-- every address was freed as often as it was handed over.
pub run-destruct :
    (p : ℕ) (es : List Call)
    → (freed : List ℕ) × (destruct (run (new false) es) ≡ ok freed)
      × (count p freed ≡ count p (handed_over es))
unfolding destruct new
run-destruct p es =
    let c = run (new false) es in
    let (freed, runs, all) = destruct_loop_lem p c.items c.deleted in
    (freed, rw (warn-run (new false) es) runs, omega (arith, all, run-owned p (new false) es))

purge_loop_lem :
    (is : List Item) (deleted : List ℕ) → All (λ i. i.destroyed ≡ false) (purge_loop is deleted).0
unfolding purge_loop
purge_loop_lem [] deleted = tt
purge_loop_lem (i ∷ is) deleted = elim (Bool-cases i.destroyed) [
  | inl e ↦ rw e (purge_loop_lem is (i.address ∷ deleted))
  | inr e ↦ rw e (refl, purge_loop_lem is deleted)
]

-- Addresses put before others one by one.
abbrev pub onto : List ℕ → List ℕ → List ℕ
onto [] us = us
onto (p ∷ ps) us = onto ps (p ∷ us)

update_loop_lem :
    (is : List Item) (deleted updated : List ℕ)
    → ((update_loop is deleted updated).0 ≡ (purge_loop is deleted).0)
      × ((update_loop is deleted updated).1 ≡ (purge_loop is deleted).1)
      × ((update_loop is deleted updated).2 ≡ onto (addresses (purge_loop is deleted).0) updated)
unfolding update_loop purge_loop
update_loop_lem [] deleted updated = (refl, refl, refl)
update_loop_lem (i ∷ is) deleted updated = elim (Bool-cases i.destroyed) [
  | inl e ↦ rw e (update_loop_lem is (i.address ∷ deleted) updated)
  | inr e ↦
      let (items, freed, rest) = update_loop_lem is deleted (i.address ∷ updated) in
      rw e (ap (λ l. record { address = i.address; destroyed = false } ∷ l) items, freed, rest)
]

-- Update keeps and frees the same items as Purge, none of those kept was destroyed, and UpdateItem
-- is called with each of them, in their order.
pub update-purge :
    (c : Cleaner)
    → ((update c).items ≡ (purge c).items)
      × ((update c).deleted ≡ (purge c).deleted)
      × ((update c).updated ≡ onto (addresses (purge c).items) c.updated)
      × All (λ i. i.destroyed ≡ false) (purge c).items
unfolding update purge
update-purge c =
    let (items, freed, rest) = update_loop_lem c.items c.deleted c.updated in
    (items, freed, rest, purge_loop_lem c.items c.deleted)
