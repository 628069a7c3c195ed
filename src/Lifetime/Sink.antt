-- ===== src/Lifetime/Sink.antt =====
-- lifetime.h, namespace Sink: items that may be destroyed anywhere, wrappers that learn of it, and a
-- manager of wrappers. The signal of a wrapper is the address of its Expired flag, which is the
-- wrapper's own number; numbers are handed out in order. A write through the address of a wrapper
-- that is gone, and a call on an item that is gone, abort.
pub mod Signals
pub mod Items
pub mod Wrappers
pub mod Safety
pub mod Destroy
pub mod Tests
use ren_general.Base.{
  ℕ, zero, suc, Bool, true, false, not, ◌&&◌, Option, none, some, List, [], ◌∷◌, ◌++◌, ◌==◌,
  if◌then◌else◌, contains, push_back,
}
use ren_general.Exception.{Result, ok, throw, abort, out_of_fuel, ◌>>=◌, ◌>>◌, assert}

pub record Wrapper : Type 0 where
  pub id : ℕ
  pub target : ℕ
  pub expired : Bool

-- A live item: its address, and the signals that it was given.
abbrev pub Item : Type 0
Item = ℕ × List ℕ

pub record Store : Type 0 where
  pub items : List Item
  -- The manager's vector.
  pub wrappers : List Wrapper
  pub next : ℕ

unfoldable pub new : Store
new = record { items = []; wrappers = []; next = 0 }

abbrev pub erase : ℕ → List ℕ → List ℕ
erase x [] = []
erase x (y ∷ ys) = if y == x then ys else y ∷ erase x ys

-- Item::AddExpirationSignal, on the item at an address.
unfoldable pub add_expiration_signal : ℕ → ℕ → List Item → Result (List Item)
add_expiration_signal item signal [] = abort
add_expiration_signal item signal ((i, signals) ∷ rest) =
    if i == item
    then ok ((i, push_back signals signal) ∷ rest)
    else (add_expiration_signal item signal rest >>= λ rest'. ok ((i, signals) ∷ rest'))

-- Item::RemoveExpirationSignal, with its assertion.
unfoldable pub remove_expiration_signal : ℕ → ℕ → List Item → Result (List Item)
remove_expiration_signal item signal [] = abort
remove_expiration_signal item signal ((i, signals) ∷ rest) =
    if i == item
    then (assert (contains signal signals) >> ok ((i, erase signal signals) ∷ rest))
    else (remove_expiration_signal item signal rest >>= λ rest'. ok ((i, signals) ∷ rest'))

-- `**CurrentSignal = true`.
unfoldable pub raise : ℕ → List Wrapper → Result (List Wrapper)
raise signal [] = abort
raise signal (w ∷ ws) =
    if w.id == signal
    then ok (record w { expired = true } ∷ ws)
    else (raise signal ws >>= λ ws'. ok (w ∷ ws'))

-- The loop of the item's destructor.
unfoldable pub raise_all : List ℕ → List Wrapper → Result (List Wrapper)
raise_all [] ws = ok ws
raise_all (s ∷ ss) ws = raise s ws >>= λ ws'. raise_all ss ws'

-- A new item, at an address where none lives.
unfoldable pub create_item : Store → ℕ → Store
create_item s i = record s { items = (i, []) ∷ s.items }

abbrev pub find_item : ℕ → List Item → Option (List ℕ)
find_item i [] = none
find_item i ((j, signals) ∷ rest) = if j == i then some signals else find_item i rest

abbrev pub drop_item : ℕ → List Item → List Item
drop_item i [] = []
drop_item i ((j, signals) ∷ rest) = if j == i then rest else (j, signals) ∷ drop_item i rest

abbrev pub live_item : Option (List ℕ) → Result (List ℕ)
live_item none = abort
live_item (some signals) = ok signals

-- Item::~Item.
unfoldable pub destroy_item : Store → ℕ → Result Store
unfolding raise_all
destroy_item s i = live_item (find_item i s.items) >>= λ signals.
    raise_all signals s.wrappers >>= λ ws.
    ok (record s { items = drop_item i s.items; wrappers = ws })

-- Manager::push_back: the constructor of the new wrapper adds its signal.
unfoldable pub manager_push_back : Store → ℕ → Result Store
manager_push_back s managee = add_expiration_signal managee s.next s.items >>= λ items. ok (record {
  items = items;
  wrappers = push_back s.wrappers (record { id = s.next; target = managee; expired = false });
  next = suc s.next;
})

-- Wrapper::~Wrapper.
unfoldable pub destroy_wrapper : Wrapper → List Item → Result (List Item)
destroy_wrapper w items =
    if not w.expired then remove_expiration_signal w.target w.id items else ok items

-- Manager::Purge: the wrappers that stay, and the items.
unfoldable pub purge_loop : List Wrapper → List Item → Result (List Wrapper × List Item)
purge_loop [] items = ok ([], items)
purge_loop (w ∷ ws) items =
    if w.expired
    then (destroy_wrapper w items >>= λ items'. purge_loop ws items')
    else (purge_loop ws items >>= λ (ws', items'). ok (w ∷ ws', items'))

unfoldable pub purge : Store → Result Store
unfolding purge_loop
purge s =
    purge_loop s.wrappers s.items >>= λ (ws, items). ok (record s { wrappers = ws; items = items })

-- Manager::~Manager.
unfoldable pub destroy_loop : List Wrapper → List Item → Result (List Item)
destroy_loop [] items = ok items
destroy_loop (w ∷ ws) items = destroy_wrapper w items >>= λ items'. destroy_loop ws items'

unfoldable pub destroy_manager : Store → Result Store
unfolding destroy_loop
destroy_manager s =
    destroy_loop s.wrappers s.items >>= λ items. ok (record s { wrappers = []; items = items })
