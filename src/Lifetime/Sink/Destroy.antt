-- ===== src/Lifetime/Sink/Destroy.antt =====
-- The manager's destructor: each wrapper that has not expired takes its signal from its item.
use ren_general.Base.{
  ℕ, ◌≡◌, refl, ◌∙◌, inl, inr, true, false, List, [], ◌∷◌, arith, ◌==◌, if◌then◌else◌, Bool-cases,
  ==_refl, All,
}
use ren_general.Exception.{ok}
use ren_general.Lifetime.Sink.{
  Wrapper, Item, Store, erase, destroy_manager, destroy_loop, destroy_wrapper,
  remove_expiration_signal,
}
use ren_general.Lifetime.Sink.Signals.{live, Signalled, has_item, Targets, Once}
use ren_general.Lifetime.Sink.Items.{Signalled-agree}
use ren_general.Lifetime.Sink.Wrappers.{Targets-agree}
use ren_general.Lifetime.Sink.Safety.{IsValid}

-- The items without the first signal of the one at an address.
abbrev taken : ℕ → ℕ → List Item → List Item
taken i n [] = []
taken i n ((j, signals) ∷ rest) =
    if j == i then (j, erase n signals) ∷ rest else (j, signals) ∷ taken i n rest

has_item-taken : (j i n : ℕ) (items : List Item) → has_item j (taken i n items) ≡ has_item j items
has_item-taken j i n [] = refl
has_item-taken j i n ((k, signals) ∷ rest) = ground (arith, has_item-taken j i n rest)

Once-taken : (i n : ℕ) (items : List Item) → Once items → Once (taken i n items)
Once-taken i n [] o = tt
Once-taken i n ((j, signals) ∷ rest) o = elim (Bool-cases (j == i)) [
  | inl e ↦ rw e o
  | inr e ↦ rw e (has_item-taken j i n rest ∙ o.0, Once-taken i n rest o.1)
]

-- The first signal of the target of a live wrapper is the wrapper's.
live-first :
    (w : Wrapper) (ws : List Wrapper) (j : ℕ)
    → w.expired ≡ false
    → (j == w.target) ≡ true
    → live j (w ∷ ws) ≡ w.id ∷ live j ws
live-first w ws j x e = ground arith

live-other :
    (w : Wrapper) (ws : List Wrapper) (j : ℕ)
    → (j == w.target) ≡ false
    → live j (w ∷ ws) ≡ live j ws
live-other w ws j e = ground arith

remove_expiration_signal_lem :
    (w : Wrapper) (ws : List Wrapper) (items : List Item)
    → w.expired ≡ false
    → has_item w.target items ≡ true
    → Signalled (w ∷ ws) items
    → remove_expiration_signal w.target w.id items ≡ ok (taken w.target w.id items)
unfolding remove_expiration_signal
remove_expiration_signal_lem w ws [] x h s = cc
remove_expiration_signal_lem w ws ((j, signals) ∷ rest) x h s = elim (Bool-cases (j == w.target)) [
  | inl e ↦ rw (e, s.0, live-first w ws j x e, ==_refl w.id) refl
  | inr e ↦ rw (e, remove_expiration_signal_lem w ws rest x (ground arith) s.1) refl
]

Signalled-taken :
    (w : Wrapper) (ws : List Wrapper) (items : List Item)
    → w.expired ≡ false
    → Once items
    → Signalled (w ∷ ws) items
    → Signalled ws (taken w.target w.id items)
Signalled-taken w ws [] x o s = tt
Signalled-taken w ws ((j, signals) ∷ rest) x o s = elim (Bool-cases (j == w.target)) [
  | inl e ↦ rw e (
    rw (s.0, live-first w ws j x e, ==_refl w.id) refl,
    Signalled-agree (w ∷ ws) ws rest (λ k hk. live-other w ws k (ground (arith, o.0))) s.1,
  )
  | inr e ↦ rw e (s.0 ∙ live-other w ws j e, Signalled-taken w ws rest x o.1 s.1)
]

Signalled-expired :
    (w : Wrapper) (ws : List Wrapper) (items : List Item)
    → w.expired ≡ true
    → Signalled (w ∷ ws) items
    → Signalled ws items
Signalled-expired w ws items x s = Signalled-agree (w ∷ ws) ws items (λ k hk. rw x refl) s

no_signals : (items : List Item) → Signalled [] items → All (λ item. item.1 ≡ []) items
no_signals [] s = tt
no_signals ((j, signals) ∷ rest) s = (s.0, no_signals rest s.1)

destroy_loop_lem :
    (ws : List Wrapper) (items : List Item)
    → Targets ws items
    → Once items
    → Signalled ws items
    → (items' : List Item) × (destroy_loop ws items ≡ ok items') × All (λ item. item.1 ≡ []) items'
unfolding destroy_loop destroy_wrapper
destroy_loop_lem [] items t o s = (items, refl, no_signals items s)
destroy_loop_lem (w ∷ ws) items t o s = elim (Bool-cases w.expired) [
  | inl x ↦ rw x (destroy_loop_lem ws items t.1 o (Signalled-expired w ws items x s))
  | inr x ↦
      let items' = taken w.target w.id items in
      rw (x, remove_expiration_signal_lem w ws items x (t.0 x) s)
        (destroy_loop_lem ws items'
          (Targets-agree ws items items' (λ j e. has_item-taken j w.target w.id items ∙ e) t.1)
          (Once-taken w.target w.id items o) (Signalled-taken w ws items x o s))
]

-- On a valid store the manager's destructor returns, with no failed assertion, and no item is left
-- with a signal of a wrapper.
pub destroy_manager_lem :
    (s : Store)
    → IsValid s
    → (s' : Store) × (destroy_manager s ≡ ok s') × All (λ item. item.1 ≡ []) s'.items
unfolding destroy_manager
destroy_manager_lem s v =
    let (items, runs, none_left) =
      destroy_loop_lem s.wrappers s.items v.targets v.once v.signalled in
    (record s { wrappers = []; items = items }, rw runs refl, none_left)
