-- ===== src/Base/Lists.antt =====
-- Lists measured by native numbers, under the library's names, with the two ends of a std::list
-- or std::vector: `push_back` and `pop_back`.
use Prim.Native.Nat.{ℕ, zero, suc, ◌+◌}
use mathlib.Core.Path.{◌≡◌, refl, ap}
use mathlib.Core.Bool.{Bool, true, false}
use mathlib.Core.List.{List, [], ◌∷◌, ◌++◌}
use native.Mathlib.Omega.{arith}
use ren_general.Base.Tests.{◌==◌, if◌then◌else◌}

module _ {ℓ} {A : Type ℓ} where
  abbrev pub length : List A → ℕ
  length [] = 0
  length (x ∷ xs) = suc (length xs)

  pub length-append : (xs ys : List A) → length (xs ++ ys) ≡ length xs + length ys
  length-append [] ys = omega arith
  length-append (x ∷ xs) ys = omega (arith, length-append xs ys)

  abbrev pub take : ℕ → List A → List A
  take zero xs = []
  take (suc n) [] = []
  take (suc n) (x ∷ xs) = x ∷ take n xs

  abbrev pub drop : ℕ → List A → List A
  drop zero xs = xs
  drop (suc n) [] = []
  drop (suc n) (x ∷ xs) = drop n xs

  abbrev pub push_back : List A → A → List A
  push_back xs x = xs ++ x ∷ []

  -- The list without its last element; the empty list stays empty.
  abbrev pub pop_back : List A → List A
  pop_back [] = []
  pop_back (x ∷ []) = []
  pop_back (x ∷ y ∷ xs) = x ∷ pop_back (y ∷ xs)

  pub pop_back-push_back : (xs : List A) (x : A) → pop_back (push_back xs x) ≡ xs
  pop_back-push_back [] x = refl
  pop_back-push_back (y ∷ []) x = refl
  pop_back-push_back (y ∷ z ∷ xs) x = ap (◌∷◌ y) (pop_back-push_back (z ∷ xs) x)

  abbrev pub is_empty : List A → Bool
  is_empty [] = true
  is_empty (x ∷ xs) = false

  pub is_empty-push_back : (xs : List A) (x : A) → is_empty (push_back xs x) ≡ false
  is_empty-push_back [] x = refl
  is_empty-push_back (y ∷ ys) x = refl

  -- A predicate on each element.
  abbrev pub All {κ} : (A → Type κ) → List A → Type κ
  All P [] = Unit
  All P (x ∷ xs) = P x × All P xs

module _ {ℓ} {A : Type ℓ} where
  pub All-append {κ} : (P : A → Type κ) (xs ys : List A) → All P xs → All P ys → All P (xs ++ ys)
  All-append P [] ys hx hy = hy
  All-append P (x ∷ xs) ys hx hy = (hx.0, All-append P xs ys hx.1 hy)

  pub All-pop_back {κ} : (P : A → Type κ) (xs : List A) → All P xs → All P (pop_back xs)
  All-pop_back P [] h = h
  All-pop_back P (x ∷ []) h = tt
  All-pop_back P (x ∷ y ∷ xs) h = (h.0, All-pop_back P (y ∷ xs) h.1)

-- How often an address stands in a list, and whether it does.
abbrev pub count : ℕ → List ℕ → ℕ
count p [] = 0
count p (q ∷ l) = count p l + (if q == p then 1 else 0)

pub count-append : (l m : List ℕ) (p : ℕ) → count p (l ++ m) ≡ count p m + count p l
count-append [] m p = omega arith
count-append (q ∷ l) m p = omega (arith, count-append l m p)

abbrev pub contains : ℕ → List ℕ → Bool
contains a [] = false
contains a (x ∷ xs) = if x == a then true else contains a xs

-- The fuel of a loop and one round.
pub suc_plus : (n extra : ℕ) → suc n + extra ≡ suc (n + extra)
suc_plus n extra = omega arith

-- An assignment of a member of the object at a number.
abbrev pub put : {A : Type 0} → (ℕ → A) → ℕ → A → ℕ → A
put f a v x = if x == a then v else f x
