-- ===== src/Factory/Update.antt =====
-- What Clean and Update free, and what they keep.
use ren_general.Base.{
  ℕ, zero, suc, ◌+◌, ◌≡◌, refl, ap, ◌∙◌, inl, inr, Bool, true, false, not, List, [], ◌∷◌, ◌++◌,
  arith, ◌==◌, if◌then◌else◌, push_back, Bool-cases, count, count-append,
}
use ren_general.Lifetime.Deleter.{delete_all}
use ren_general.Factory.{
  Product, should_be_deleted, delete_product, delete_at, delete_each, clean_loop, update_product,
  update_loop,
}

abbrev pub addresses : List Product → List ℕ
addresses [] = []
addresses (i ∷ is) = i.address ∷ addresses is

pub clean_loop-count :
    (p : ℕ) (is : List Product) (deleted : List ℕ)
    → count p (addresses (clean_loop is deleted).0) + count p (clean_loop is deleted).1
      ≡ count p (addresses is) + count p deleted
unfolding clean_loop should_be_deleted
clean_loop-count p [] deleted = refl
clean_loop-count p (i ∷ is) deleted = elim (Bool-cases i.deletable) [
  | inl e ↦ rw e (omega (arith, clean_loop-count p is (i.address ∷ deleted)))
  | inr e ↦ rw e (omega (arith, clean_loop-count p is deleted))
]

pub addresses-delete_at : (p : ℕ) (is : List Product) → addresses (delete_at p is) ≡ addresses is
unfolding delete_at delete_product
addresses-delete_at p [] = refl
addresses-delete_at p (i ∷ is) = elim (Bool-cases (i.address == p)) [
  | inl e ↦ rw e (ap (λ l. i.address ∷ l) (addresses-delete_at p is))
  | inr e ↦ rw e (ap (λ l. i.address ∷ l) (addresses-delete_at p is))
]

addresses-delete_each :
    (ps : List ℕ) (is : List Product) → addresses (delete_each ps is) ≡ addresses is
unfolding delete_each
addresses-delete_each [] is = refl
addresses-delete_each (p ∷ ps) is =
    addresses-delete_each ps (delete_at p is) ∙ addresses-delete_at p is

addresses-append : (xs ys : List Product) → addresses (xs ++ ys) ≡ addresses xs ++ addresses ys
addresses-append [] ys = refl
addresses-append (x ∷ xs) ys = ap (λ l. x.address ∷ l) (addresses-append xs ys)

count-addresses :
    (p : ℕ) (xs ys : List Product)
    → count p (addresses (xs ++ ys)) ≡ count p (addresses ys) + count p (addresses xs)
count-addresses p xs ys =
    ap (count p) (addresses-append xs ys) ∙ count-append (addresses xs) (addresses ys) p

count-marked :
    (p : ℕ) (ps : List ℕ) (passed : List Product) (i : Product) (is : List Product) (n : ℕ)
    → count p (addresses (delete_each ps (push_back passed i)))
        + count p (addresses (delete_each ps is))
        + n
      ≡ count p (addresses passed) + count p (addresses (i ∷ is)) + n
count-marked p ps passed i is n =
    rw (addresses-delete_each ps (push_back passed i), addresses-delete_each ps is)
      (omega (arith, count-addresses p passed (i ∷ [])))

-- Where both results of a loop hold an address as often, the result of a branch does.
if_count :
    (p : ℕ) (b : Bool) (x y : List Product × List ℕ × List ℕ × List ℕ) (n : ℕ)
    → count p (addresses x.0) + count p x.1 ≡ n
    → count p (addresses y.0) + count p y.1 ≡ n
    → count p (addresses (if not b then x else y).0) + count p (if not b then x else y).1 ≡ n
if_count p true x y n e f = f
if_count p false x y n e f = e

module _ (deletes : ℕ → List ℕ) where
  -- However UpdateProduct marks the products, each is kept or freed.
  pub update_loop-count :
      (p turns : ℕ) (passed is : List Product) (deleted destroyed updated : List ℕ)
      → count p (addresses (update_loop deletes turns passed is deleted destroyed updated).0)
          + count p (update_loop deletes turns passed is deleted destroyed updated).1
        ≡ count p (addresses passed) + count p (addresses is) + count p deleted
  unfolding update_loop update_product should_be_deleted
  update_loop-count p zero passed is deleted destroyed updated =
      omega (arith, count-addresses p passed is)
  update_loop-count p (suc turns) passed [] deleted destroyed updated =
      omega (arith, count-addresses p passed [])
  update_loop-count p (suc turns) passed (i ∷ is) deleted destroyed updated =
      let ps = deletes i.address in
      let kept =
        update_loop-count p turns (delete_each ps (push_back passed i)) (delete_each ps is) deleted
          (delete_all ps destroyed) (i.address ∷ updated)
        ∙ count-marked p ps passed i is (count p deleted) in
      let freed = update_loop-count p turns passed is (i.address ∷ deleted) destroyed updated in
      if_count p i.deletable _ _ _ kept (omega (arith, freed))
