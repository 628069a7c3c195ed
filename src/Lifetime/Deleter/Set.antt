-- ===== src/Lifetime/Deleter/Set.antt =====
-- lifetime.h: DeleterSet, over a std::set of pointers in increasing order.
pub mod Increasing
use ren_general.Base.{
  ℕ, ◌+◌, ◌≡◌, refl, Bool, true, false, Option, none, some, List, [], ◌∷◌, count, arith, inl, inr,
  ltb, ◌==◌, if◌then◌else◌, contains, Bool-cases,
}
use ren_general.Exception.{Result, ok}
use ren_general.Lifetime.Deleter.{
  Holder, delete_all, take_at, take_value, count-delete_all, Takes, take_at-Takes, take_value-Takes,
  IfSome, state, erase_element, erase_found, Balances, erase_element-Balances, erase_found-Balances,
  empty,
}
use ren_general.Lifetime.Deleter.Contract.{Container}

unfoldable pub destruct : Holder → List ℕ
destruct s = delete_all s.items s.deleted

unfoldable pub clear : Holder → Holder
clear s = record { items = []; deleted = delete_all s.items s.deleted }

unfoldable pub erase_at : Holder → ℕ → Option (Holder × ℕ)
erase_at s i = erase_element s i (take_at i s.items)

unfoldable pub erase : Holder → ℕ → Holder × Bool
erase s v = erase_found s (take_value v s.items)

-- `remove`, of what an iterator is at: the element is erased, and not deleted.
abbrev pub remove_element : Holder → ℕ → Option (ℕ × List ℕ) → Option (Holder × ℕ)
remove_element s i none = none
remove_element s i (some (p, rest)) = some (record s { items = rest }, i)

unfoldable pub remove_at : Holder → ℕ → Option (Holder × ℕ)
remove_at s i = remove_element s i (take_at i s.items)

abbrev pub remove_found : Holder → Option (ℕ × List ℕ) → Holder × Bool
remove_found s none = (s, false)
remove_found s (some (p, rest)) = (record s { items = rest }, true)

unfoldable pub remove : Holder → ℕ → Holder × Bool
remove s v = remove_found s (take_value v s.items)

-- The inherited `insert`, which keeps the order and does nothing for a pointer that is there.
unfoldable pub insert : ℕ → List ℕ → List ℕ
insert v [] = v ∷ []
insert v (p ∷ ps) =
    let rest = insert v ps in if v == p then p ∷ ps else if ltb v p then v ∷ p ∷ ps else p ∷ rest

-- The pointer, unless the insertion finds it there.
abbrev pub inserted : ℕ → List ℕ → List ℕ
inserted v [] = v ∷ []
inserted v (p ∷ ps) =
    let rest = inserted v ps in if v == p then [] else if ltb v p then v ∷ [] else rest

-- The pointer that was found, if one was.
abbrev pub taken : Option (ℕ × List ℕ) → List ℕ
taken none = []
taken (some (p, rest)) = p ∷ []

pub data Call : Type 0 where
  inserts erases_at erases removes_at removes : ℕ → Call
  clears : Call

unfoldable pub act : Holder → Call → Option Holder
act s (inserts p) = some (record s { items = insert p s.items })
act s (erases_at i) = state (erase_at s i)
act s (erases v) = some (erase s v).0
act s (removes_at i) = state (remove_at s i)
act s (removes v) = some (remove s v).0
act s clears = some (clear s)

abbrev pub handed : Holder → Call → List ℕ
handed s (inserts p) = inserted p s.items
handed s (erases_at i) = []
handed s (erases v) = []
handed s (removes_at i) = []
handed s (removes v) = []
handed s clears = []

abbrev pub released : Holder → Call → List ℕ
released s (inserts p) = []
released s (erases_at i) = []
released s (erases v) = []
released s (removes_at i) = taken (take_at i s.items)
released s (removes v) = taken (take_value v s.items)
released s clears = []

count-insert :
    (r v : ℕ) (ps : List ℕ) → count r (insert v ps) ≡ count r ps + count r (inserted v ps)
unfolding insert
count-insert r v [] = omega arith
count-insert r v (p ∷ ps) = ground (arith, count-insert r v ps)

remove_element-Balances :
    (s : Holder) (i : ℕ) (o : Option (ℕ × List ℕ))
    → Takes s.items o
    → IfSome (Balances s [] (taken o)) (state (remove_element s i o))
remove_element-Balances s i none h = tt
remove_element-Balances s i (some (p, rest)) h = λ r. omega (arith, h r)

remove_found-Balances :
    (s : Holder) (o : Option (ℕ × List ℕ))
    → Takes s.items o
    → Balances s [] (taken o) (remove_found s o).0
remove_found-Balances s none h = λ r. refl
remove_found-Balances s (some (p, rest)) h = λ r. omega (arith, h r)

pub act-Balances :
    (s : Holder) (c : Call) → IfSome (Balances s (handed s c) (released s c)) (act s c)
unfolding act clear erase_at erase remove_at remove
act-Balances s (inserts q) = λ p. omega (arith, count-insert p q s.items)
act-Balances s (erases_at i) =
    erase_element-Balances s i (take_at i s.items) (take_at-Takes i s.items)
act-Balances s (erases v) =
    erase_found-Balances s (take_value v s.items) (take_value-Takes v s.items)
act-Balances s (removes_at i) =
    remove_element-Balances s i (take_at i s.items) (take_at-Takes i s.items)
act-Balances s (removes v) =
    remove_found-Balances s (take_value v s.items) (take_value-Takes v s.items)
act-Balances s clears = λ p. omega (arith, count-delete_all p s.items s.deleted)

pub destruct-count :
    (s : Holder)
    → (freed : List ℕ) × (ok (destruct s) ≡ ok freed)
      × ((p : ℕ) → count p freed ≡ count p s.items + count p s.deleted)
unfolding destruct
destruct-count s = (destruct s, refl, λ p. count-delete_all p s.items s.deleted)

abbrev pub container : Container
container = record {
  State = Holder;
  Call = Call;
  start = empty;
  act = act;
  held = λ s. s.items;
  deleted = λ s. s.deleted;
  handed = handed;
  released = released;
  destruct = λ s. ok (destruct s);
  starts = λ p. refl;
  conserves = act-Balances;
  destructs = destruct-count;
}
