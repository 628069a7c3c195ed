-- ===== src/Lifetime/Deleter/Stack.antt =====
-- lifetime.h: DeleterStack, over a std::stack. The top is the first element.
use ren_general.Base.{ℕ, ◌+◌, ◌≡◌, refl, some, List, [], ◌∷◌, count, arith}
use ren_general.Exception.{ok}
use ren_general.Lifetime.Deleter.{Holder, Balances, empty}
use ren_general.Lifetime.Deleter.Contract.{Container}

-- The loop of the destructor and of clear, which deletes and pops the top until none is left.
unfoldable pub clear_loop : List ℕ → List ℕ → Holder
clear_loop [] deleted = record { items = []; deleted = deleted }
clear_loop (p ∷ ps) deleted = clear_loop ps (p ∷ deleted)

unfoldable pub destruct : Holder → List ℕ
destruct s = (clear_loop s.items s.deleted).deleted

unfoldable pub clear : Holder → Holder
clear s = clear_loop s.items s.deleted

abbrev pub pop_from : List ℕ → List ℕ → Holder
pop_from [] deleted = record { items = []; deleted = deleted }
pop_from (p ∷ ps) deleted = record { items = ps; deleted = p ∷ deleted }

unfoldable pub pop : Holder → Holder
pop s = pop_from s.items s.deleted

-- The inherited `push`.
abbrev pub push : Holder → ℕ → Holder
push s p = record s { items = p ∷ s.items }

pub data Call : Type 0 where
  pushes : ℕ → Call
  pops clears : Call

unfoldable pub act : Holder → Call → Holder
act s (pushes p) = push s p
act s pops = pop s
act s clears = clear s

abbrev pub handed : Holder → Call → List ℕ
handed s (pushes p) = p ∷ []
handed s pops = []
handed s clears = []

pub clear_loop-count :
    (p : ℕ) (ps deleted : List ℕ)
    → (count p (clear_loop ps deleted).items ≡ 0)
      × (count p (clear_loop ps deleted).deleted ≡ count p ps + count p deleted)
unfolding clear_loop
clear_loop-count p [] deleted = (refl, omega arith)
clear_loop-count p (q ∷ ps) deleted =
    let (none, all) = clear_loop-count p ps (q ∷ deleted) in (none, omega (arith, all))

pop_from-count :
    (p : ℕ) (ps deleted : List ℕ)
    → count p (pop_from ps deleted).items + count p (pop_from ps deleted).deleted
      ≡ count p ps + count p deleted
pop_from-count p [] deleted = refl
pop_from-count p (q ∷ ps) deleted = omega arith

pub act-Balances : (s : Holder) (c : Call) → Balances s (handed s c) [] (act s c)
unfolding act pop clear
act-Balances s (pushes q) p = omega (arith)
act-Balances s pops p = omega (arith, pop_from-count p s.items s.deleted)
act-Balances s clears p =
    let (none, all) = clear_loop-count p s.items s.deleted in omega (arith, none, all)

pub destruct-count :
    (s : Holder)
    → (freed : List ℕ) × (ok (destruct s) ≡ ok freed)
      × ((p : ℕ) → count p freed ≡ count p s.items + count p s.deleted)
unfolding destruct
destruct-count s = (destruct s, refl, λ p. (clear_loop-count p s.items s.deleted).1)

abbrev pub container : Container
container = record {
  State = Holder;
  Call = Call;
  start = empty;
  act = λ s c. some (act s c);
  held = λ s. s.items;
  deleted = λ s. s.deleted;
  handed = handed;
  released = λ s c. [];
  destruct = λ s. ok (destruct s);
  starts = λ p. refl;
  conserves = act-Balances;
  destructs = destruct-count;
}
