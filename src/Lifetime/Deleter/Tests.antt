-- ===== src/Lifetime/Deleter/Tests.antt =====
-- The theorems at containers in use.
use ren_general.Base.{ℕ, ◌+◌, ◌≡◌, refl, some, List, [], ◌∷◌, count}
use ren_general.Exception.{ok}
use ren_general.Lifetime.Deleter.{empty, take_at, take_value}
use ren_general.Lifetime.Deleter.Contract.{run, Ledger}
use ren_general.Lifetime.Deleter.Sequence
use ren_general.Lifetime.Deleter.Set
use ren_general.Lifetime.Deleter.Queue
use ren_general.Lifetime.Deleter.Dequeue
use ren_general.Lifetime.Deleter.Map
use ren_general.Lifetime.Deleter.Ownership.{
  Set-destruct, Dequeue-destruct, destruct-history, history, pushed,
}

abbrev sequence_calls : List Sequence.Call
sequence_calls =
    Sequence.pushes 4
    ∷ Sequence.pushes 5
    ∷ Sequence.pushes 6
    ∷ Sequence.erases_at 1
    ∷ Sequence.erases 9
    ∷ Sequence.flushes
    ∷ Sequence.pushes 7
    ∷ []

abbrev sequence_ledger : Ledger Sequence.container
sequence_ledger = record {
  state = record { items = 7 ∷ []; deleted = 5 ∷ [] };
  into = 7 ∷ 6 ∷ 5 ∷ 4 ∷ [];
  out = 4 ∷ 6 ∷ [];
}

sequence_run : run Sequence.container sequence_calls ≡ some sequence_ledger
unfolding Sequence.act Sequence.erase_at take_at Sequence.flush Sequence.erase take_value
sequence_run = refl

abbrev set_calls : List Set.Call
set_calls =
    Set.inserts 8
    ∷ Set.inserts 5
    ∷ Set.inserts 8
    ∷ Set.inserts 6
    ∷ Set.removes 6
    ∷ Set.erases_at 0
    ∷ []

abbrev set_ledger : Ledger Set.container
set_ledger = record {
  state = record { items = 8 ∷ []; deleted = 5 ∷ [] };
  into = 6 ∷ 5 ∷ 8 ∷ [];
  out = 6 ∷ [];
}

set_run : run Set.container set_calls ≡ some set_ledger
unfolding Set.act Set.insert Set.remove Set.erase_at take_at take_value
set_run = refl

Set-destruct_example :
    count 8 (Set.destruct set_ledger.state) + count 8 set_ledger.out ≡ count 8 set_ledger.into
Set-destruct_example = Set-destruct set_calls {g = set_ledger} set_run 8

abbrev map_calls : List Map.Call
map_calls = Map.assigns 2 5 ∷ Map.assigns 1 6 ∷ Map.assigns 2 7 ∷ Map.erases_at 0 ∷ []

abbrev map_ledger : Ledger Map.container
map_ledger = record {
  state = record { items = (2, 7) ∷ []; deleted = 6 ∷ [] };
  into = 7 ∷ 6 ∷ 5 ∷ [];
  out = 5 ∷ [];
}

map_run : run Map.container map_calls ≡ some map_ledger
unfolding Map.act Map.assign Map.erase_at Map.value_at
map_run = refl

abbrev queue_calls : List Queue.Call
queue_calls = Queue.pushes 4 ∷ Queue.pushes 5 ∷ Queue.pops ∷ Queue.pushes 6 ∷ []

destruct-history_example :
    Queue.destruct (history Queue.act empty queue_calls) ≡ pushed queue_calls (Queue.destruct empty)
destruct-history_example = destruct-history empty queue_calls

abbrev dequeue_calls : List Dequeue.Call
dequeue_calls =
    Dequeue.pushes_back 4
    ∷ Dequeue.pushes_front 5
    ∷ Dequeue.pops_back
    ∷ Dequeue.clears
    ∷ Dequeue.pushes_back 6
    ∷ []

Dequeue-destruct_example :
    (g : Ledger Dequeue.container) × (run Dequeue.container dequeue_calls ≡ some g)
    × ((freed : List ℕ) × (Dequeue.destruct g.state ≡ ok freed)
        × ((p : ℕ) → count p freed ≡ count p g.into))
Dequeue-destruct_example = Dequeue-destruct dequeue_calls
