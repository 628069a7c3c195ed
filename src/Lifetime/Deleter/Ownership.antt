-- ===== src/Lifetime/Deleter/Ownership.antt =====
-- What the containers of lifetime.h have deleted when they are gone.
use ren_general.Base.{ℕ, ◌+◌, ◌≡◌, refl, ap, ◌∙◌, some, List, [], ◌∷◌, ◌++◌, count}
use ren_general.Exception.{ok}
use ren_general.Lifetime.Deleter.{Holder}
use ren_general.Lifetime.Deleter.Contract.{Ledger, run, destruct-run, destruct-total}
use ren_general.Lifetime.Deleter.Sequence
use ren_general.Lifetime.Deleter.Set
use ren_general.Lifetime.Deleter.Queue
use ren_general.Lifetime.Deleter.Stack
use ren_general.Lifetime.Deleter.Dequeue
use ren_general.Lifetime.Deleter.Map

-- After any calls of a DeleterList or a DeleterVector whose iterators were at elements, the
-- destructor leaves each pointer deleted as often as it was put in, less the times that `flush`
-- let it go.
pub Sequence-destruct :
    (cs : List Sequence.Call) {g : Ledger Sequence.container}
    → run Sequence.container cs ≡ some g
    → (p : ℕ) → count p (Sequence.destruct g.state) + count p g.out ≡ count p g.into
Sequence-destruct cs {g} e p =
    let (freed, runs, all) = destruct-run Sequence.container cs e in cc (all p, runs)

-- After any calls of a DeleterSet whose iterators were at elements, the destructor leaves each
-- pointer deleted as often as an insertion put it in, less the times that `remove` took it out.
pub Set-destruct :
    (cs : List Set.Call) {g : Ledger Set.container}
    → run Set.container cs ≡ some g
    → (p : ℕ) → count p (Set.destruct g.state) + count p g.out ≡ count p g.into
Set-destruct cs {g} e p =
    let (freed, runs, all) = destruct-run Set.container cs e in cc (all p, runs)

-- After any calls of a DeleterMap whose iterators were at elements, the destructor leaves each
-- pointer deleted as often as it was assigned, less the times that an assignment overwrote it.
pub Map-destruct :
    (cs : List Map.Call) {g : Ledger Map.container}
    → run Map.container cs ≡ some g
    → (p : ℕ) → count p (Map.destruct g.state) + count p g.out ≡ count p g.into
Map-destruct cs {g} e p =
    let (freed, runs, all) = destruct-run Map.container cs e in cc (all p, runs)

abbrev pub history : {S C : Type 0} → (S → C → S) → S → List C → S
history act s [] = s
history act s (c ∷ cs) = history act (act s c) cs

-- The pointers that calls push, the last first, onto others.
abbrev pub pushed : List Queue.Call → List ℕ → List ℕ
pushed [] ps = ps
pushed (Queue.pushes p ∷ cs) ps = pushed cs (p ∷ ps)
pushed (Queue.pops ∷ cs) ps = pushed cs ps
pushed (Queue.clears ∷ cs) ps = pushed cs ps

clear_loop-push_back :
    (ps deleted : List ℕ) (p : ℕ)
    → (Queue.clear_loop (ps ++ p ∷ []) deleted).deleted ≡ p ∷ (Queue.clear_loop ps deleted).deleted
unfolding Queue.clear_loop
clear_loop-push_back [] deleted p = refl
clear_loop-push_back (q ∷ ps) deleted p = clear_loop-push_back ps (q ∷ deleted) p

clear_loop-pop_from :
    (ps deleted : List ℕ)
    → (Queue.clear_loop
        (Queue.pop_from ps deleted).items
        (Queue.pop_from ps deleted).deleted).deleted
      ≡ (Queue.clear_loop ps deleted).deleted
unfolding Queue.clear_loop
clear_loop-pop_from [] deleted = refl
clear_loop-pop_from (q ∷ ps) deleted = refl

clear_loop_again :
    (ps deleted : List ℕ)
    → (Queue.clear_loop
        (Queue.clear_loop ps deleted).items
        (Queue.clear_loop ps deleted).deleted).deleted
      ≡ (Queue.clear_loop ps deleted).deleted
unfolding Queue.clear_loop
clear_loop_again [] deleted = refl
clear_loop_again (q ∷ ps) deleted = clear_loop_again ps (q ∷ deleted)

-- After any calls of a DeleterQueue, the destructor leaves the pointers that were pushed deleted, in
-- the order in which they were pushed, behind what was deleted when the destructor of the state
-- before the calls was done.
pub destruct-history :
    (s : Holder) (cs : List Queue.Call)
    → Queue.destruct (history Queue.act s cs) ≡ pushed cs (Queue.destruct s)
unfolding Queue.act Queue.pop Queue.clear Queue.destruct
destruct-history s [] = refl
destruct-history s (Queue.pushes p ∷ cs) =
    destruct-history (Queue.push s p) cs ∙ ap (pushed cs) (clear_loop-push_back s.items s.deleted p)
destruct-history s (Queue.pops ∷ cs) =
    destruct-history (Queue.pop s) cs ∙ ap (pushed cs) (clear_loop-pop_from s.items s.deleted)
destruct-history s (Queue.clears ∷ cs) =
    destruct-history (Queue.clear s) cs ∙ ap (pushed cs) (clear_loop_again s.items s.deleted)

-- After any calls of a DeleterStack, the destructor leaves each pointer deleted as often as it was
-- pushed.
pub Stack-destruct :
    (cs : List Stack.Call)
    → (g : Ledger Stack.container) × (run Stack.container cs ≡ some g)
      × ((p : ℕ) → count p (Stack.destruct g.state) ≡ count p g.into)
Stack-destruct cs =
    let (g, e, rest) =
      destruct-total Stack.container (λ s c. (Stack.act s c, refl)) (λ s c. refl) cs in
    (g, e, λ p. cc (rest.2 p, rest.1))

-- After any calls of a DeleterDequeue, which all return, the destructor returns with each pointer
-- deleted as often as it was pushed.
pub Dequeue-destruct :
    (cs : List Dequeue.Call)
    → (g : Ledger Dequeue.container) × (run Dequeue.container cs ≡ some g)
      × ((freed : List ℕ) × (Dequeue.destruct g.state ≡ ok freed)
          × ((p : ℕ) → count p freed ≡ count p g.into))
Dequeue-destruct cs = destruct-total Dequeue.container Dequeue.act-total (λ s c. refl) cs
