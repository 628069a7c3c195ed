-- ===== src/Lifetime/Sink/Wrappers.antt =====
-- The wrappers when one is added, when an item's expire, and when the expired ones are purged.
use ren_general.Base.{
  ℕ, suc, ◌≤◌, ◌≡◌, refl, ◌∙◌, inl, inr, true, false, not, ◌&&◌, List, [], ◌∷◌, arith, ◌==◌,
  if◌then◌else◌, Bool-cases, push_back, All,
}
use ren_general.Exception.{ok}
use ren_general.Lifetime.Sink.{Wrapper, Item, destroy_wrapper, purge_loop, drop_item}
use ren_general.Lifetime.Sink.Signals.{live, expire, Rises, Rises-mono, Bounded, has_item, Targets}
use ren_general.Lifetime.Sink.Items.{has_item-drop_item}

pub Rises-push_back :
    (m n t : ℕ) (ws : List Wrapper)
    → m ≤ n
    → Rises m ws
    → Bounded n ws
    → Rises m (push_back ws (record { id = n; target = t; expired = false }))
Rises-push_back m n t [] h r b = (h, tt)
Rises-push_back m n t (w ∷ ws) h r b =
    (r.0, Rises-push_back (suc w.id) n t ws (omega arith) r.1 b.1)

pub Bounded-push_back :
    (n t : ℕ) (ws : List Wrapper)
    → Bounded n ws
    → Bounded (suc n) (push_back ws (record { id = n; target = t; expired = false }))
Bounded-push_back n t [] b = (omega arith, tt)
Bounded-push_back n t (w ∷ ws) b = (omega arith, Bounded-push_back n t ws b.1)

pub live-push_back :
    (j : ℕ) (ws : List Wrapper) (w : Wrapper)
    → live j (push_back ws w)
      ≡ (if not w.expired && (w.target == j) then push_back (live j ws) w.id else live j ws)
live-push_back j [] w = refl
live-push_back j (v ∷ ws) w = ground (arith, live-push_back j ws w)

pub Targets-push_back :
    (n t : ℕ) (ws : List Wrapper) (items : List Item)
    → Targets ws items
    → has_item t items ≡ true
    → Targets (push_back ws (record { id = n; target = t; expired = false })) items
Targets-push_back n t [] items h k = (λ e. k, tt)
Targets-push_back n t (w ∷ ws) items h k = (h.0, Targets-push_back n t ws items h.1 k)

-- Other lists of items with the same items serve as well.
pub Targets-agree :
    (ws : List Wrapper) (items other : List Item)
    → ((j : ℕ) → has_item j items ≡ true → has_item j other ≡ true)
    → Targets ws items
    → Targets ws other
Targets-agree [] items other h t = tt
Targets-agree (w ∷ ws) items other h t =
    (λ e. h w.target (t.0 e), Targets-agree ws items other h t.1)

-- An item that does not live has no live wrappers.
pub live-Targets :
    (i : ℕ) (ws : List Wrapper) (items : List Item)
    → Targets ws items
    → has_item i items ≡ false
    → live i ws ≡ []
live-Targets i [] items t h = refl
live-Targets i (w ∷ ws) items t h = ground (arith, live-Targets i ws items t.1 h, t.0)

pub Rises-expire : (m i : ℕ) (ws : List Wrapper) → Rises m ws → Rises m (expire i ws)
Rises-expire m i [] r = tt
Rises-expire m i (w ∷ ws) r = elim (Bool-cases (not w.expired && (w.target == i))) [
  | inl e ↦ rw e (r.0, Rises-expire (suc w.id) i ws r.1)
  | inr e ↦ rw e (r.0, Rises-expire (suc w.id) i ws r.1)
]

pub Bounded-expire : (n i : ℕ) (ws : List Wrapper) → Bounded n ws → Bounded n (expire i ws)
Bounded-expire n i [] b = tt
Bounded-expire n i (w ∷ ws) b = elim (Bool-cases (not w.expired && (w.target == i))) [
  | inl e ↦ rw e (b.0, Bounded-expire n i ws b.1)
  | inr e ↦ rw e (b.0, Bounded-expire n i ws b.1)
]

pub live-expire :
    (i j : ℕ) (ws : List Wrapper) → (j == i) ≡ false → live j ws ≡ live j (expire i ws)
live-expire i j [] h = refl
live-expire i j (w ∷ ws) h = ground (arith, live-expire i j ws h)

pub Targets-expire :
    (i : ℕ) (ws : List Wrapper) (items : List Item)
    → Targets ws items
    → Targets (expire i ws) (drop_item i items)
Targets-expire i [] items t = tt
Targets-expire i (w ∷ ws) items t = elim (Bool-cases (w.target == i)) [
  | inl e ↦ elim (Bool-cases w.expired) [
    | inl x ↦ rw (e, x) (λ f. absurd cc, Targets-expire i ws items t.1)
    | inr x ↦ rw (e, x) (λ f. absurd cc, Targets-expire i ws items t.1)
  ]
  | inr e ↦ elim (Bool-cases w.expired) [
    | inl x ↦ rw (e, x) (λ f. absurd cc, Targets-expire i ws items t.1)
    | inr x ↦
        rw (e, x)
          (λ f. has_item-drop_item w.target i items e ∙ t.0 x, Targets-expire i ws items t.1)
  ]
]

-- The wrappers that Purge keeps.
abbrev pub kept : List Wrapper → List Wrapper
kept [] = []
kept (w ∷ ws) = if w.expired then kept ws else w ∷ kept ws

pub purge_loop_lem :
    (ws : List Wrapper) (items : List Item) → purge_loop ws items ≡ ok (kept ws, items)
unfolding purge_loop destroy_wrapper
purge_loop_lem [] items = refl
purge_loop_lem (w ∷ ws) items = elim (Bool-cases w.expired) [
  | inl e ↦ rw (e, purge_loop_lem ws items) refl
  | inr e ↦ rw (e, purge_loop_lem ws items) refl
]

pub Rises-kept : (m : ℕ) (ws : List Wrapper) → Rises m ws → Rises m (kept ws)
Rises-kept m [] r = tt
Rises-kept m (w ∷ ws) r = elim (Bool-cases w.expired) [
  | inl e ↦ rw e (Rises-mono m (suc w.id) (kept ws) (omega arith) (Rises-kept (suc w.id) ws r.1))
  | inr e ↦ rw e (r.0, Rises-kept (suc w.id) ws r.1)
]

pub Bounded-kept : (n : ℕ) (ws : List Wrapper) → Bounded n ws → Bounded n (kept ws)
Bounded-kept n [] b = tt
Bounded-kept n (w ∷ ws) b = elim (Bool-cases w.expired) [
  | inl e ↦ rw e (Bounded-kept n ws b.1)
  | inr e ↦ rw e (b.0, Bounded-kept n ws b.1)
]

pub live-kept : (j : ℕ) (ws : List Wrapper) → live j ws ≡ live j (kept ws)
live-kept j [] = refl
live-kept j (w ∷ ws) = ground (arith, live-kept j ws)

pub Targets-kept :
    (ws : List Wrapper) (items : List Item) → Targets ws items → Targets (kept ws) items
Targets-kept [] items t = tt
Targets-kept (w ∷ ws) items t = elim (Bool-cases w.expired) [
  | inl e ↦ rw e (Targets-kept ws items t.1)
  | inr e ↦ rw e (λ _. t.0 e, Targets-kept ws items t.1)
]

-- Every wrapper that is kept has its target.
pub kept-All :
    (ws : List Wrapper) (items : List Item)
    → Targets ws items
    → All (λ w. has_item w.target items ≡ true) (kept ws)
kept-All [] items t = tt
kept-All (w ∷ ws) items t = elim (Bool-cases w.expired) [
  | inl e ↦ rw e (kept-All ws items t.1)
  | inr e ↦ rw e (t.0 e, kept-All ws items t.1)
]
