-- ===== src/Lifetime/Sink/Safety.antt =====
-- The invariant of a store, and what holds of every use of a manager under it.
use mathlib.Core.Bool.{true≢false}
use ren_general.Base.{
  ℕ, suc, ◌≡◌, refl, sym, ap, ◌∙◌, inl, inr, Bool, true, false, not, List, [], ◌∷◌, arith, ◌==◌,
  Bool-cases, ==_iff, push_back, All,
}
use ren_general.Exception.{Result, ok}
use ren_general.Lifetime.Sink.{
  Wrapper, Item, Store, create_item, destroy_item, manager_push_back, purge, drop_item,
}
use ren_general.Lifetime.Sink.Signals.{
  expire, raise_all-live, Rises, Bounded, Signalled, has_item, Targets, Once,
}
use ren_general.Lifetime.Sink.Items.{
  find_item-live, added, add_expiration_signal_lem, has_item-added, Once-added, Once-drop_item,
  Signalled-agree, Signalled-drop_item, drop_item_absent,
}
use ren_general.Lifetime.Sink.Wrappers.{
  Rises-push_back, Bounded-push_back, live-push_back, Targets-push_back, Targets-agree,
  live-Targets, Rises-expire, Bounded-expire, live-expire, Targets-expire, kept, purge_loop_lem,
  Rises-kept, Bounded-kept, live-kept, Targets-kept, kept-All,
}

-- The signals of each item are those of its live wrappers, and their targets live.
pub record IsValid (s : Store) : Type 0 where
  pub rises : Rises 0 s.wrappers
  pub bounded : Bounded s.next s.wrappers
  pub signalled : Signalled s.wrappers s.items
  pub targets : Targets s.wrappers s.items
  pub once : Once s.items

create_item-IsValid :
    (s : Store) (i : ℕ) → has_item i s.items ≡ false → IsValid s → IsValid (create_item s i)
unfolding create_item
create_item-IsValid s i h v = record {
  rises = v.rises;
  bounded = v.bounded;
  signalled = (sym (live-Targets i s.wrappers s.items v.targets h), v.signalled);
  targets = Targets-agree s.wrappers s.items ((i, []) ∷ s.items) (λ j e. ground arith) v.targets;
  once = (h, v.once);
}

destroy_item_lem :
    (s : Store) (i : ℕ)
    → has_item i s.items ≡ true
    → IsValid s
    → destroy_item s i
      ≡ ok (record s { items = drop_item i s.items; wrappers = expire i s.wrappers })
unfolding destroy_item
destroy_item_lem s i h v =
    rw (find_item-live i s.wrappers s.items v.signalled h, raise_all-live 0 i s.wrappers v.rises)
      refl

destroy_item-IsValid :
    (s : Store) (i : ℕ)
    → IsValid s
    → IsValid (record s { items = drop_item i s.items; wrappers = expire i s.wrappers })
destroy_item-IsValid s i v = record {
  rises = Rises-expire 0 i s.wrappers v.rises;
  bounded = Bounded-expire s.next i s.wrappers v.bounded;
  signalled =
      Signalled-agree s.wrappers (expire i s.wrappers) (drop_item i s.items)
        (λ j h. live-expire i j s.wrappers (other j h))
        (Signalled-drop_item i s.wrappers s.items v.signalled);
  targets = Targets-expire i s.wrappers s.items v.targets;
  once = Once-drop_item i s.items v.once;
}
  where
    other : (j : ℕ) → has_item j (drop_item i s.items) ≡ true → (j == i) ≡ false
    other j h = ground (arith, drop_item_absent i s.items v.once, h)

same_address :
    (i j k : ℕ) (items : List Item)
    → (j == i) ≡ true
    → has_item j items ≡ false
    → has_item k items ≡ true
    → (i == k) ≡ false
same_address i j k items e h hk = elim (Bool-cases (i == k)) [
  | inl f ↦ absurd (true≢false (sym hk ∙ rw (sym ((==_iff j i).0 e ∙ (==_iff i k).0 f)) h))
  | inr f ↦ f
]

flipped : (i j : ℕ) → (j == i) ≡ (i == j)
flipped i j = ground arith

-- The manager's new wrapper and its signal.
Signalled-added :
    (i n : ℕ) (ws : List Wrapper) (items : List Item)
    → Once items
    → Signalled ws items
    → Signalled (push_back ws (record { id = n; target = i; expired = false })) (added i n items)
Signalled-added i n ws [] o s = tt
Signalled-added i n ws ((j, signals) ∷ rest) o s =
    let w : Wrapper = record { id = n; target = i; expired = false } in
    elim (Bool-cases (j == i)) [
      | inl e ↦ rw e (
        ap (λ l. push_back l n) s.0 ∙ sym (live-push_back j ws w ∙ rw (sym (flipped i j) ∙ e) refl),
        Signalled-agree ws (push_back ws w) rest
            (λ k hk. sym (live-push_back k ws w ∙ rw (same_address i j k rest e o.0 hk) refl)) s.1,
      )
      | inr e ↦ rw e (
        s.0 ∙ sym (live-push_back j ws w ∙ rw (sym (flipped i j) ∙ e) refl),
        Signalled-added i n ws rest o.1 s.1,
      )
    ]

push_back-IsValid :
    (s : Store) (i : ℕ)
    → has_item i s.items ≡ true
    → IsValid s
    → (s' : Store) × (manager_push_back s i ≡ ok s') × IsValid s'
unfolding manager_push_back
push_back-IsValid s i h v =
    let w : Wrapper = record { id = s.next; target = i; expired = false } in
    let s' : Store = record {
      items = added i s.next s.items;
      wrappers = push_back s.wrappers w;
      next = suc s.next;
    } in
    (
      s',
      rw (add_expiration_signal_lem i s.next s.items h) refl,
      record {
        rises = Rises-push_back 0 s.next i s.wrappers (omega arith) v.rises v.bounded;
        bounded = Bounded-push_back s.next i s.wrappers v.bounded;
        signalled = Signalled-added i s.next s.wrappers s.items v.once v.signalled;
        targets =
            Targets-push_back s.next i s.wrappers (added i s.next s.items)
              (Targets-agree s.wrappers s.items (added i s.next s.items)
                (λ j e. has_item-added j i s.next s.items ∙ e) v.targets)
              (has_item-added i i s.next s.items ∙ h);
        once = Once-added i s.next s.items v.once;
      },
    )

purge-IsValid : (s : Store) → IsValid s → IsValid (record s { wrappers = kept s.wrappers })
purge-IsValid s v = record {
  rises = Rises-kept 0 s.wrappers v.rises;
  bounded = Bounded-kept s.next s.wrappers v.bounded;
  signalled =
      Signalled-agree s.wrappers (kept s.wrappers) s.items (λ j h. live-kept j s.wrappers)
        v.signalled;
  targets = Targets-kept s.wrappers s.items v.targets;
  once = v.once;
}

pub data Call : Type 0 where
  creates destroys pushes : ℕ → Call
  purges : Call

-- An item is made where none lives, and used while it lives.
abbrev pub allowed : Store → Call → Bool
allowed s (creates i) = not (has_item i s.items)
allowed s (destroys i) = has_item i s.items
allowed s (pushes i) = has_item i s.items
allowed s purges = true

unfoldable pub act : Store → Call → Result Store
act s (creates i) = ok (create_item s i)
act s (destroys i) = destroy_item s i
act s (pushes i) = manager_push_back s i
act s purges = purge s

-- An allowed call on a valid store returns, and leaves a valid store: no signal is raised in a
-- wrapper that is gone, no item that is gone is called, and no assertion fails.
pub act-IsValid :
    (s : Store) (c : Call)
    → allowed s c ≡ true
    → IsValid s
    → (s' : Store) × (act s c ≡ ok s') × IsValid s'
unfolding act purge
act-IsValid s (creates i) h v = (create_item s i, refl, create_item-IsValid s i (ground arith) v)
act-IsValid s (destroys i) h v = (
  record s { items = drop_item i s.items; wrappers = expire i s.wrappers },
  destroy_item_lem s i h v,
  destroy_item-IsValid s i v,
)
act-IsValid s (pushes i) h v = push_back-IsValid s i h v
act-IsValid s purges h v = (
  record s { wrappers = kept s.wrappers },
  rw (purge_loop_lem s.wrappers s.items) refl,
  purge-IsValid s v,
)

-- On a valid store Purge returns with the same items, and the target of every wrapper that the
-- manager keeps is one of them.
pub purge-targets :
    (s : Store)
    → IsValid s
    → (s' : Store) × (purge s ≡ ok s')
      × (s'.items ≡ s.items)
      × All (λ w. has_item w.target s'.items ≡ true) s'.wrappers
unfolding purge
purge-targets s v = (
  record s { wrappers = kept s.wrappers },
  rw (purge_loop_lem s.wrappers s.items) refl,
  refl,
  kept-All s.wrappers s.items v.targets,
)
