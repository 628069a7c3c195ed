-- ===== src/Lifetime/Deleter/Map.antt =====
-- lifetime.h: DeleterMap, over a std::map. The keys are numbers and stand in increasing order.
use ren_general.Base.{
  ℕ, zero, suc, ◌+◌, ◌≡◌, refl, Option, none, some, List, [], ◌∷◌, ◌==◌, ltb, if◌then◌else◌, count,
  arith,
}
use ren_general.Exception.{ok}
use ren_general.Lifetime.Deleter.{IfSome}
use ren_general.Lifetime.Deleter.Contract.{Container}

pub record Map : Type 0 where
  pub items : List (ℕ × ℕ)
  pub deleted : List ℕ

abbrev pub empty_map : Map
empty_map = record { items = []; deleted = [] }

-- The pointers, in the order of their keys.
abbrev pub values : List (ℕ × ℕ) → List ℕ
values [] = []
values ((k, p) ∷ is) = p ∷ values is

-- The loop that deletes the value of each item.
unfoldable pub delete_values : List (ℕ × ℕ) → List ℕ → List ℕ
delete_values [] deleted = deleted
delete_values ((k, p) ∷ is) deleted = delete_values is (p ∷ deleted)

unfoldable pub destruct : Map → List ℕ
destruct m = delete_values m.items m.deleted

unfoldable pub clear : Map → Map
clear m = record { items = []; deleted = delete_values m.items m.deleted }

-- The value at an iterator, and the other items.
abbrev pub with_item : ℕ × ℕ → Option (ℕ × List (ℕ × ℕ)) → Option (ℕ × List (ℕ × ℕ))
with_item i none = none
with_item i (some (p, rest)) = some (p, i ∷ rest)

unfoldable pub value_at : ℕ → List (ℕ × ℕ) → Option (ℕ × List (ℕ × ℕ))
value_at n [] = none
value_at zero ((k, p) ∷ is) = some (p, is)
value_at (suc n) (i ∷ is) = with_item i (value_at n is)

abbrev pub erase_item : Map → Option (ℕ × List (ℕ × ℕ)) → Option Map
erase_item m none = none
erase_item m (some (p, rest)) = some (record { items = rest; deleted = p ∷ m.deleted })

unfoldable pub erase_at : Map → ℕ → Option Map
erase_at m n = erase_item m (value_at n m.items)

-- The inherited assignment through `operator []`, which overwrites the value of a key that is there,
-- and the value that it overwrites.
unfoldable pub assign : ℕ → ℕ → List (ℕ × ℕ) → List (ℕ × ℕ)
assign k p [] = (k, p) ∷ []
assign k p ((j, q) ∷ is) =
    let rest = assign k p is in
    if k == j then (j, p) ∷ is else if ltb k j then (k, p) ∷ (j, q) ∷ is else (j, q) ∷ rest

abbrev pub overwritten : ℕ → List (ℕ × ℕ) → List ℕ
overwritten k [] = []
overwritten k ((j, q) ∷ is) =
    let rest = overwritten k is in if k == j then q ∷ [] else if ltb k j then [] else rest

pub data Call : Type 0 where
  assigns : ℕ → ℕ → Call
  erases_at : ℕ → Call
  clears : Call

unfoldable pub act : Map → Call → Option Map
act m (assigns k p) = some (record m { items = assign k p m.items })
act m (erases_at n) = erase_at m n
act m clears = some (clear m)

abbrev pub handed : Map → Call → List ℕ
handed m (assigns k p) = p ∷ []
handed m (erases_at n) = []
handed m clears = []

abbrev pub released : Map → Call → List ℕ
released m (assigns k p) = overwritten k m.items
released m (erases_at n) = []
released m clears = []

count-delete_values :
    (r : ℕ) (is : List (ℕ × ℕ)) (deleted : List ℕ)
    → count r (delete_values is deleted) ≡ count r (values is) + count r deleted
unfolding delete_values
count-delete_values r [] deleted = omega arith
count-delete_values r ((k, p) ∷ is) deleted = omega (arith, count-delete_values r is (p ∷ deleted))

assign-count :
    (r k p : ℕ) (is : List (ℕ × ℕ))
    → count r (values (assign k p is)) + count r (overwritten k is)
      ≡ count r (values is) + (if p == r then 1 else 0)
unfolding assign
assign-count r k p [] = omega arith
assign-count r k p ((j, q) ∷ is) = ground (arith, assign-count r k p is)

abbrev Takes : List (ℕ × ℕ) → Option (ℕ × List (ℕ × ℕ)) → Type 0
Takes is = IfSome λ (p, rest). (r : ℕ) → count r (p ∷ values rest) ≡ count r (values is)

with_item-Takes :
    (k p : ℕ) (is : List (ℕ × ℕ)) (o : Option (ℕ × List (ℕ × ℕ)))
    → Takes is o
    → Takes ((k, p) ∷ is) (with_item (k, p) o)
with_item-Takes k p is none h = tt
with_item-Takes k p is (some (q, rest)) h = λ r. omega (arith, h r)

value_at-Takes : (n : ℕ) (is : List (ℕ × ℕ)) → Takes is (value_at n is)
unfolding value_at
value_at-Takes n [] = tt
value_at-Takes zero ((k, p) ∷ is) = λ r. refl
value_at-Takes (suc n) ((k, p) ∷ is) = with_item-Takes k p is (value_at n is) (value_at-Takes n is)

abbrev pub Balances : Map → List ℕ → List ℕ → Map → Type 0
Balances s handed released t =
    (p : ℕ)
    → count p (values t.items) + count p t.deleted + count p released
      ≡ count p (values s.items) + count p s.deleted + count p handed

erase_item-Balances :
    (m : Map) (o : Option (ℕ × List (ℕ × ℕ)))
    → Takes m.items o
    → IfSome (Balances m [] []) (erase_item m o)
erase_item-Balances m none h = tt
erase_item-Balances m (some (p, rest)) h = λ r. omega (arith, h r)

pub act-Balances : (m : Map) (c : Call) → IfSome (Balances m (handed m c) (released m c)) (act m c)
unfolding act clear erase_at
act-Balances m (assigns k q) = λ r. omega (arith, assign-count r k q m.items)
act-Balances m (erases_at n) = erase_item-Balances m (value_at n m.items) (value_at-Takes n m.items)
act-Balances m clears = λ r. omega (arith, count-delete_values r m.items m.deleted)

pub destruct-count :
    (m : Map)
    → (freed : List ℕ) × (ok (destruct m) ≡ ok freed)
      × ((p : ℕ) → count p freed ≡ count p (values m.items) + count p m.deleted)
unfolding destruct
destruct-count m = (destruct m, refl, λ r. count-delete_values r m.items m.deleted)

abbrev pub container : Container
container = record {
  State = Map;
  Call = Call;
  start = empty_map;
  act = act;
  held = λ m. values m.items;
  deleted = λ m. m.deleted;
  handed = handed;
  released = released;
  destruct = λ m. ok (destruct m);
  starts = λ p. refl;
  conserves = act-Balances;
  destructs = destruct-count;
}
