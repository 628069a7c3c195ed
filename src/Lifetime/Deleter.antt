-- ===== src/Lifetime/Deleter.antt =====
-- lifetime.h: the containers of pointers that delete what they hold. A pointer is a number.
-- `deleted` is the list of what `delete` was called with, the last first. An iterator is a position,
-- and an operation is `none` where its iterator is at no element, which the source leaves undefined.
pub mod Contract
pub mod Sequence
pub mod Set
pub mod Queue
pub mod Stack
pub mod Dequeue
pub mod Map
pub mod Ownership
pub mod Tests
use ren_general.Base.{
  ℕ, zero, suc, ◌+◌, ◌≡◌, refl, inl, inr, Bool, true, false, Option, none, some, List, [], ◌∷◌,
  ◌==◌, if◌then◌else◌, Bool-cases, count, arith,
}

pub record Holder : Type 0 where
  pub items : List ℕ
  pub deleted : List ℕ

abbrev pub empty : Holder
empty = record { items = []; deleted = [] }

-- The loop that deletes each element, from the first to the last.
unfoldable pub delete_all : List ℕ → List ℕ → List ℕ
delete_all [] deleted = deleted
delete_all (p ∷ ps) deleted = delete_all ps (p ∷ deleted)

-- What was found behind an element that stays.
abbrev pub with_kept : ℕ → Option (ℕ × List ℕ) → Option (ℕ × List ℕ)
with_kept p none = none
with_kept p (some (q, rest)) = some (q, p ∷ rest)

-- The element at an iterator, and the others.
unfoldable pub take_at : ℕ → List ℕ → Option (ℕ × List ℕ)
take_at i [] = none
take_at zero (p ∷ ps) = some (p, ps)
take_at (suc i) (p ∷ ps) = with_kept p (take_at i ps)

-- The first element that is equal to a value, as `find` looks for it, and the others.
unfoldable pub take_value : ℕ → List ℕ → Option (ℕ × List ℕ)
take_value v [] = none
take_value v (p ∷ ps) =
    let found = take_value v ps in if p == v then some (p, ps) else with_kept p found

-- A postcondition of the value, if there is one.
abbrev pub IfSome : {A : Type 0} → (A → Type 0) → Option A → Type 0
IfSome P none = Unit
IfSome P (some a) = P a

pub count-delete_all :
    (p : ℕ) (ps deleted : List ℕ) → count p (delete_all ps deleted) ≡ count p ps + count p deleted
unfolding delete_all
count-delete_all p [] deleted = omega arith
count-delete_all p (q ∷ ps) deleted = omega (arith, count-delete_all p ps (q ∷ deleted))

-- The same pointers are there after an element was taken out, with that element.
abbrev pub Takes : List ℕ → Option (ℕ × List ℕ) → Type 0
Takes ps = IfSome λ (q, rest). (p : ℕ) → count p (q ∷ rest) ≡ count p ps

with_kept-Takes :
    (p : ℕ) (ps : List ℕ) (found : Option (ℕ × List ℕ))
    → Takes ps found
    → Takes (p ∷ ps) (with_kept p found)
with_kept-Takes p ps none h = tt
with_kept-Takes p ps (some (q, rest)) h = λ r. omega (arith, h r)

pub take_at-Takes : (i : ℕ) (ps : List ℕ) → Takes ps (take_at i ps)
unfolding take_at
take_at-Takes i [] = tt
take_at-Takes zero (p ∷ ps) = λ r. refl
take_at-Takes (suc i) (p ∷ ps) = with_kept-Takes p ps (take_at i ps) (take_at-Takes i ps)

pub take_value-Takes : (v : ℕ) (ps : List ℕ) → Takes ps (take_value v ps)
unfolding take_value
take_value-Takes v [] = tt
take_value-Takes v (p ∷ ps) = elim (Bool-cases (p == v)) [
  | inl e ↦ rw e (λ r. refl)
  | inr e ↦ rw e (with_kept-Takes p ps (take_value v ps) (take_value-Takes v ps))
]

-- `erase` of an iterator, where it is at the element given: the element is deleted and erased, and
-- the iterator at the element behind it is returned.
abbrev pub erase_element : Holder → ℕ → Option (ℕ × List ℕ) → Option (Holder × ℕ)
erase_element s i none = none
erase_element s i (some (p, rest)) = some (record { items = rest; deleted = p ∷ s.deleted }, i)

-- `erase` of a pointer, by what was found: whether there was an element to delete and erase.
abbrev pub erase_found : Holder → Option (ℕ × List ℕ) → Holder × Bool
erase_found s none = (s, false)
erase_found s (some (p, rest)) = (record { items = rest; deleted = p ∷ s.deleted }, true)

-- The state without the iterator.
abbrev pub state : {A : Type 0} → Option (A × ℕ) → Option A
state none = none
state (some (s, i)) = some s

-- What stays equal from a state to the next, with the pointers that were handed over and released.
abbrev pub Balances : Holder → List ℕ → List ℕ → Holder → Type 0
Balances s handed released t =
    (p : ℕ)
    → count p t.items + count p t.deleted + count p released
      ≡ count p s.items + count p s.deleted + count p handed

pub erase_element-Balances :
    (s : Holder) (i : ℕ) (found : Option (ℕ × List ℕ))
    → Takes s.items found
    → IfSome (Balances s [] []) (state (erase_element s i found))
erase_element-Balances s i none h = tt
erase_element-Balances s i (some (p, rest)) h = λ r. omega (arith, h r)

pub erase_found-Balances :
    (s : Holder) (found : Option (ℕ × List ℕ))
    → Takes s.items found
    → Balances s [] [] (erase_found s found).0
erase_found-Balances s none h = λ r. refl
erase_found-Balances s (some (p, rest)) h = λ r. omega (arith, h r)
