-- ===== src/Pool/Prune.antt =====
-- Prune frees goods that are not accessed, and no others.
use ren_general.Base.{
  ℕ, zero, suc, ◌≡◌, refl, ◌∙◌, inl, inr, Bool, true, false, some, List, [], ◌∷◌, ◌==◌, arith,
  if◌then◌else◌, Bool-cases, ==_iff, All,
}
use ren_general.Exception.{ok}
use ren_general.Pool.{PoolItem, Pool, find_good, drop_good, should_be_deleted, prune_loop, prune}

abbrev is_item : ℕ → List (ℕ × ℕ) → Bool
is_item a [] = false
is_item a ((r, b) ∷ items) = if b == a then true else is_item a items

-- Each item is a good that lives, under one reference.
abbrev pub Live : List (ℕ × ℕ) → List PoolItem → Type 0
Live [] goods = Unit {0}
Live ((r, a) ∷ items) goods =
    ((n : ℕ) × (find_good a goods ≡ some n)) × (is_item a items ≡ false) × Live items goods

-- The good at an address is bound.
abbrev pub Bound : List PoolItem → ℕ → Type 0
Bound goods a = (n : ℕ) × (find_good a goods ≡ some (suc n))

find_good-drop_good :
    (a b : ℕ) (goods : List PoolItem)
    → (b == a) ≡ false
    → find_good b (drop_good a goods) ≡ find_good b goods
find_good-drop_good a b [] h = refl
find_good-drop_good a b ((c, n) ∷ goods) h = ground (arith, find_good-drop_good a b goods h)

Live-drop_good :
    (a : ℕ) (items : List (ℕ × ℕ)) (goods : List PoolItem)
    → is_item a items ≡ false
    → Live items goods
    → Live items (drop_good a goods)
Live-drop_good a [] goods h l = tt
Live-drop_good a ((r, b) ∷ items) goods h l = (
  (l.0.0, find_good-drop_good a b goods (ground arith) ∙ l.0.1),
  l.1,
  Live-drop_good a items goods (ground arith) l.2,
)

other_address :
    (a b n : ℕ) (goods : List PoolItem)
    → find_good a goods ≡ some 0
    → find_good b goods ≡ some (suc n)
    → (b == a) ≡ false
other_address a b n goods h k = elim (Bool-cases (b == a)) [
  | inl e ↦ let same : b ≡ a = (==_iff b a).0 e in cc
  | inr e ↦ e
]

prune_loop_lem :
    (items : List (ℕ × ℕ)) (goods : List PoolItem) (deleted : List ℕ)
    → Live items goods
    → (items' : List (ℕ × ℕ)) × (goods' : List PoolItem) × (deleted' : List ℕ) × (prune_loop items
          goods deleted
        ≡ ok (items', goods', deleted'))
      × ((b n : ℕ) → find_good b goods ≡ some (suc n) → find_good b goods' ≡ some (suc n))
      × All (λ item. Bound goods' item.1) items'
unfolding prune_loop should_be_deleted
prune_loop_lem [] goods deleted l = ([], goods, deleted, refl, λ b n e. e, tt)
prune_loop_lem ((r, a) ∷ items) goods deleted ((zero, e), once, l) =
    let (items', goods', deleted', runs, keeps, bound) =
      prune_loop_lem items (drop_good a goods) (a ∷ deleted)
        (Live-drop_good a items goods once l) in
    (
      items',
      goods',
      deleted',
      rw (e, should_be_deleted, runs) refl,
      λ b n h. keeps b n (find_good-drop_good a b goods (other_address a b n goods e h) ∙ h),
      bound,
    )
prune_loop_lem ((r, a) ∷ items) goods deleted ((suc n, e), once, l) =
    let (items', goods', deleted', runs, keeps, bound) = prune_loop_lem items goods deleted l in
    (
      (r, a) ∷ items',
      goods',
      deleted',
      rw (e, should_be_deleted, runs) refl,
      keeps,
      ((n, keeps a n e), bound),
    )

-- Where each item of the pool is a good that lives, under one reference, Prune returns, a good that
-- is accessed keeps its bindings, and every item that is left is accessed.
pub prune-Bound :
    (p : Pool) (a n : ℕ)
    → Live p.items p.goods
    → find_good a p.goods ≡ some (suc n)
    → (p' : Pool) × (prune p ≡ ok p')
      × (find_good a p'.goods ≡ some (suc n))
      × All (λ item. Bound p'.goods item.1) p'.items
unfolding prune
prune-Bound p a n l h =
    let (items, goods, deleted, runs, keeps, bound) = prune_loop_lem p.items p.goods p.deleted l in
    (record { goods = goods; items = items; deleted = deleted }, rw runs refl, keeps a n h, bound)
