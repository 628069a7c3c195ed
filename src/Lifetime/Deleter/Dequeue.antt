-- ===== src/Lifetime/Deleter/Dequeue.antt =====
-- lifetime.h: DeleterDequeue, over a std::deque. The front is the first element.
use ren_general.Base.{
  ℕ, zero, suc, ◌+◌, ◌<◌, ◌≡◌, refl, Option, none, some, List, [], ◌∷◌, push_back, is_empty, length,
  if◌then◌else◌, count, count-append, arith,
}
use ren_general.Exception.{Result, ok, throw, abort, out_of_fuel, ◌>>=◌}
use ren_general.Lifetime.Deleter.{
  Holder, IfSome, Takes, take_at, take_at-Takes, erase_found, erase_found-Balances, Balances, empty,
}
use ren_general.Lifetime.Deleter.Contract.{Container}

-- The back of a non-empty deque, and the elements before it.
abbrev pub back : ℕ → List ℕ → ℕ
back p [] = p
back p (q ∷ ps) = back q ps

abbrev pub before_back : ℕ → List ℕ → List ℕ
before_back p [] = []
before_back p (q ∷ ps) = p ∷ before_back q ps

abbrev pub take_back : List ℕ → Option (ℕ × List ℕ)
take_back [] = none
take_back (p ∷ ps) = some (back p ps, before_back p ps)

-- The back is deleted and popped, unless the container is empty.
unfoldable pub pop_back : Holder → Holder
pop_back s = (erase_found s (take_back s.items)).0

unfoldable pub pop_front : Holder → Holder
pop_front s = (erase_found s (take_at 0 s.items)).0

-- The loop of the destructor and of clear.
unfoldable pub clear_loop : ℕ → Holder → Result Holder
clear_loop zero s = out_of_fuel
clear_loop (suc fuel) s =
    let rest = clear_loop fuel (pop_back s) in if is_empty s.items then ok s else rest

-- One round for each element, and one that finds none.
unfoldable pub clear : Holder → Result Holder
clear s = clear_loop (suc (length s.items)) s

unfoldable pub destruct : Holder → Result (List ℕ)
destruct s = clear_loop (suc (length s.items)) s >>= λ t. ok t.deleted

pub data Call : Type 0 where
  pushes_back pushes_front : ℕ → Call
  pops_back pops_front clears : Call

abbrev pub value : {A : Type 0} → Result A → Option A
value (ok a) = some a
value (throw e) = none
value abort = none
value out_of_fuel = none

unfoldable pub act : Holder → Call → Option Holder
act s (pushes_back p) = some (record s { items = push_back s.items p })
act s (pushes_front p) = some (record s { items = p ∷ s.items })
act s pops_back = some (pop_back s)
act s pops_front = some (pop_front s)
act s clears = value (clear s)

abbrev pub handed : Holder → Call → List ℕ
handed s (pushes_back p) = p ∷ []
handed s (pushes_front p) = p ∷ []
handed s pops_back = []
handed s pops_front = []
handed s clears = []

take_back-count :
    (r p : ℕ) (ps : List ℕ) → count r (back p ps ∷ before_back p ps) ≡ count r (p ∷ ps)
take_back-count r p [] = refl
take_back-count r p (q ∷ ps) = omega (arith, take_back-count r q ps)

length-before_back : (p : ℕ) (ps : List ℕ) → length (before_back p ps) ≡ length ps
length-before_back p [] = refl
length-before_back p (q ∷ ps) = omega (arith, length-before_back q ps)

take_back-Takes : (ps : List ℕ) → Takes ps (take_back ps)
take_back-Takes [] = tt
take_back-Takes (p ∷ ps) = λ r. take_back-count r p ps

-- With fuel for the elements and one round more, the loop ends with all of them deleted.
clear_loop_lem :
    (fuel : ℕ) (ps deleted : List ℕ)
    → length ps < fuel
    → (t : Holder) × (clear_loop fuel (record { items = ps; deleted = deleted }) ≡ ok t)
      × (t.items ≡ [])
      × ((p : ℕ) → count p t.deleted ≡ count p ps + count p deleted)
unfolding clear_loop pop_back
clear_loop_lem zero ps deleted l = absurd (omega arith)
clear_loop_lem (suc fuel) [] deleted l =
    (record { items = []; deleted = deleted }, refl, refl, λ p. omega arith)
clear_loop_lem (suc fuel) (q ∷ ps) deleted l =
    let (t, runs, gone, all) =
      clear_loop_lem fuel (before_back q ps) (back q ps ∷ deleted)
        (omega (arith, length-before_back q ps)) in
    (t, runs, gone, λ p. omega (arith, all p, take_back-count p q ps))

pub clear_lem :
    (s : Holder)
    → (t : Holder) × (clear s ≡ ok t)
      × (t.items ≡ [])
      × ((p : ℕ) → count p t.deleted ≡ count p s.items + count p s.deleted)
unfolding clear
clear_lem s = clear_loop_lem (suc (length s.items)) s.items s.deleted (omega arith)

act-clears : (s : Holder) → IfSome (Balances s [] []) (act s clears)
unfolding act
act-clears s =
    let (t, runs, gone, all) = clear_lem s in rw runs (λ p. rw gone (omega (arith, all p)))

pub act-Balances : (s : Holder) (c : Call) → IfSome (Balances s (handed s c) []) (act s c)
unfolding act pop_back pop_front
act-Balances s (pushes_back q) = λ p. omega (arith, count-append s.items (q ∷ []) p)
act-Balances s (pushes_front q) = λ p. omega arith
act-Balances s pops_back = erase_found-Balances s (take_back s.items) (take_back-Takes s.items)
act-Balances s pops_front = erase_found-Balances s (take_at 0 s.items) (take_at-Takes 0 s.items)
act-Balances s clears = act-clears s

pub destruct-count :
    (s : Holder)
    → (freed : List ℕ) × (destruct s ≡ ok freed)
      × ((p : ℕ) → count p freed ≡ count p s.items + count p s.deleted)
unfolding destruct clear
destruct-count s = let (t, runs, gone, all) = clear_lem s in (t.deleted, rw runs refl, all)

abbrev pub container : Container
container = record {
  State = Holder;
  Call = Call;
  start = empty;
  act = act;
  held = λ s. s.items;
  deleted = λ s. s.deleted;
  handed = handed;
  released = λ s c. [];
  destruct = destruct;
  starts = λ p. refl;
  conserves = act-Balances;
  destructs = destruct-count;
}

-- No call is undefined.
pub act-total : (s : Holder) (c : Call) → (t : Holder) × (act s c ≡ some t)
unfolding act
act-total s (pushes_back q) = (record s { items = push_back s.items q }, refl)
act-total s (pushes_front q) = (record s { items = q ∷ s.items }, refl)
act-total s pops_back = (pop_back s, refl)
act-total s pops_front = (pop_front s, refl)
act-total s clears = let (t, runs, gone, all) = clear_lem s in (t, rw runs refl)
