-- ===== src/Lifetime/Sink/Items.antt =====
-- The items when a signal is added or removed, and when an item is dropped.
use ren_general.Base.{
  ℕ, ◌≡◌, refl, ◌∙◌, inl, inr, true, false, some, List, [], ◌∷◌, arith, ◌==◌, if◌then◌else◌,
  Bool-cases, ==_refl, push_back,
}
use ren_general.Exception.{ok}
use ren_general.Lifetime.Sink.{Wrapper, Item, add_expiration_signal, find_item, drop_item}
use ren_general.Lifetime.Sink.Signals.{live, Signalled, has_item, Once}

pub find_item-live :
    (i : ℕ) (ws : List Wrapper) (items : List Item)
    → Signalled ws items
    → has_item i items ≡ true
    → find_item i items ≡ some (live i ws)
find_item-live i ws [] s h = cc
find_item-live i ws ((j, signals) ∷ rest) s h = ground (arith, find_item-live i ws rest s.1)

-- The items with one more signal for the item at an address.
abbrev pub added : ℕ → ℕ → List Item → List Item
added i n [] = []
added i n ((j, signals) ∷ rest) =
    if j == i then (j, push_back signals n) ∷ rest else (j, signals) ∷ added i n rest

pub add_expiration_signal_lem :
    (i n : ℕ) (items : List Item)
    → has_item i items ≡ true
    → add_expiration_signal i n items ≡ ok (added i n items)
unfolding add_expiration_signal
add_expiration_signal_lem i n [] h = cc
add_expiration_signal_lem i n ((j, signals) ∷ rest) h = elim (Bool-cases (j == i)) [
  | inl e ↦ rw e refl
  | inr e ↦ rw (e, add_expiration_signal_lem i n rest (ground arith)) refl
]

pub has_item-added :
    (j i n : ℕ) (items : List Item) → has_item j (added i n items) ≡ has_item j items
has_item-added j i n [] = refl
has_item-added j i n ((k, signals) ∷ rest) = ground (arith, has_item-added j i n rest)

pub has_item-drop_item :
    (j i : ℕ) (items : List Item)
    → (j == i) ≡ false
    → has_item j (drop_item i items) ≡ has_item j items
has_item-drop_item j i [] h = refl
has_item-drop_item j i ((k, signals) ∷ rest) h = ground (arith, has_item-drop_item j i rest h)

pub has_item-drop_item_absent :
    (j i : ℕ) (items : List Item)
    → has_item j items ≡ false
    → has_item j (drop_item i items) ≡ false
has_item-drop_item_absent j i [] h = refl
has_item-drop_item_absent j i ((k, signals) ∷ rest) h =
    ground (arith, has_item-drop_item_absent j i rest)

pub Once-added : (i n : ℕ) (items : List Item) → Once items → Once (added i n items)
Once-added i n [] o = tt
Once-added i n ((j, signals) ∷ rest) o = elim (Bool-cases (j == i)) [
  | inl e ↦ rw e o
  | inr e ↦ rw e (has_item-added j i n rest ∙ o.0, Once-added i n rest o.1)
]

pub Once-drop_item : (i : ℕ) (items : List Item) → Once items → Once (drop_item i items)
Once-drop_item i [] o = tt
Once-drop_item i ((j, signals) ∷ rest) o = elim (Bool-cases (j == i)) [
  | inl e ↦ rw e (o.1)
  | inr e ↦ rw e (has_item-drop_item_absent j i rest o.0, Once-drop_item i rest o.1)
]

-- Lists of wrappers that agree on the signals of every item that lives serve as well.
pub Signalled-agree :
    (ws vs : List Wrapper) (items : List Item)
    → ((j : ℕ) → has_item j items ≡ true → live j ws ≡ live j vs)
    → Signalled ws items
    → Signalled vs items
Signalled-agree ws vs [] h s = tt
Signalled-agree ws vs ((j, signals) ∷ rest) h s =
    (s.0 ∙ h j (rw (==_refl j) refl), Signalled-agree ws vs rest (λ k hk. h k (ground arith)) s.1)

pub Signalled-drop_item :
    (i : ℕ) (ws : List Wrapper) (items : List Item)
    → Signalled ws items
    → Signalled ws (drop_item i items)
Signalled-drop_item i ws [] s = tt
Signalled-drop_item i ws ((j, signals) ∷ rest) s = elim (Bool-cases (j == i)) [
  | inl e ↦ rw e (s.1)
  | inr e ↦ rw e (s.0, Signalled-drop_item i ws rest s.1)
]

pub drop_item_absent :
    (i : ℕ) (items : List Item) → Once items → has_item i (drop_item i items) ≡ false
drop_item_absent i [] o = refl
drop_item_absent i ((j, signals) ∷ rest) o = elim (Bool-cases (j == i)) [
  | inl e ↦ rw e (ground (arith, o.0))
  | inr e ↦ rw (e, e) (drop_item_absent i rest o.1)
]
