-- ===== src/Lifetime/Deleter/Sequence.antt =====
-- lifetime.h: DeleterBase, over a std::list or a std::vector (DeleterList and DeleterVector).
use ren_general.Base.{
  ℕ, ◌+◌, ◌≡◌, refl, Bool, Option, some, List, [], ◌∷◌, push_back, count, count-append, arith,
}
use ren_general.Exception.{ok}
use ren_general.Lifetime.Deleter.{
  Holder, delete_all, take_at, take_value, count-delete_all, take_at-Takes, take_value-Takes,
  IfSome, state, erase_element, erase_found, Balances, erase_element-Balances, erase_found-Balances,
  empty,
}
use ren_general.Lifetime.Deleter.Contract.{Container}

-- The constructor from an initializer list.
unfoldable pub from_elements : List ℕ → Holder
from_elements ps = record { items = ps; deleted = [] }

unfoldable pub destruct : Holder → List ℕ
destruct s = delete_all s.items s.deleted

unfoldable pub clear : Holder → Holder
clear s = record { items = []; deleted = delete_all s.items s.deleted }

unfoldable pub flush : Holder → Holder
flush s = record s { items = [] }

-- `erase` of an iterator, which returns the iterator at the element behind.
unfoldable pub erase_at : Holder → ℕ → Option (Holder × ℕ)
erase_at s i = erase_element s i (take_at i s.items)

-- `erase` of a pointer, and whether it was found.
unfoldable pub erase : Holder → ℕ → Holder × Bool
erase s v = erase_found s (take_value v s.items)

-- The calls, with the inherited push_back.
pub data Call : Type 0 where
  pushes erases_at erases : ℕ → Call
  clears flushes : Call

unfoldable pub act : Holder → Call → Option Holder
act s (pushes p) = some (record s { items = push_back s.items p })
act s (erases_at i) = state (erase_at s i)
act s (erases v) = some (erase s v).0
act s clears = some (clear s)
act s flushes = some (flush s)

abbrev pub handed : Holder → Call → List ℕ
handed s (pushes p) = p ∷ []
handed s (erases_at i) = []
handed s (erases v) = []
handed s clears = []
handed s flushes = []

abbrev pub released : Holder → Call → List ℕ
released s (pushes p) = []
released s (erases_at i) = []
released s (erases v) = []
released s clears = []
released s flushes = s.items

pub act-Balances :
    (s : Holder) (c : Call) → IfSome (Balances s (handed s c) (released s c)) (act s c)
unfolding act clear flush erase_at erase
act-Balances s (pushes q) = λ p. omega (arith, count-append s.items (q ∷ []) p)
act-Balances s (erases_at i) =
    erase_element-Balances s i (take_at i s.items) (take_at-Takes i s.items)
act-Balances s (erases v) =
    erase_found-Balances s (take_value v s.items) (take_value-Takes v s.items)
act-Balances s clears = λ p. omega (arith, count-delete_all p s.items s.deleted)
act-Balances s flushes = λ p. omega arith

pub destruct-count :
    (s : Holder)
    → (freed : List ℕ) × (ok (destruct s) ≡ ok freed)
      × ((p : ℕ) → count p freed ≡ count p s.items + count p s.deleted)
unfolding destruct
destruct-count s = (destruct s, refl, λ p. count-delete_all p s.items s.deleted)

abbrev pub container : Container
container = record {
  State = Holder;
  Call = Call;
  start = empty;
  act = act;
  held = λ s. s.items;
  deleted = λ s. s.deleted;
  handed = handed;
  released = released;
  destruct = λ s. ok (destruct s);
  starts = λ p. refl;
  conserves = act-Balances;
  destructs = destruct-count;
}
