-- ===== src/Pool.antt =====
-- pool.h: Pool, its goods and the accesses to them. The goods that live are their addresses with
-- their Bindings, the pool's map is references with addresses, and what is freed is kept in order,
-- the last first. A call on a good that is gone, and a failed assertion, abort.
pub mod Prune
pub mod Tests
use ren_general.Base.{
  ℕ, zero, suc, ◌+◌, ◌-◌, Bool, true, false, Option, none, some, List, [], ◌∷◌, ◌==◌, ltb,
  if◌then◌else◌,
}
use ren_general.Exception.{Result, ok, abort, ◌>>=◌, ◌>>◌, assert}

abbrev pub PoolItem : Type 0
PoolItem = ℕ × ℕ

pub record Pool : Type 0 where
  pub goods : List PoolItem
  pub items : List (ℕ × ℕ)
  pub deleted : List ℕ

abbrev pub find_good : ℕ → List PoolItem → Option ℕ
find_good a [] = none
find_good a ((b, n) ∷ goods) = if b == a then some n else find_good a goods

abbrev pub drop_good : ℕ → List PoolItem → List PoolItem
drop_good a [] = []
drop_good a ((b, n) ∷ goods) = if b == a then goods else (b, n) ∷ drop_good a goods

-- PoolItem::Reserve, which the constructors of Access call.
unfoldable pub reserve : ℕ → List PoolItem → Result (List PoolItem)
reserve a [] = abort
reserve a ((b, n) ∷ goods) =
    let rest = reserve a goods in
    if b == a then ok ((b, n + 1) ∷ goods) else (rest >>= λ goods'. ok ((b, n) ∷ goods'))

-- PoolItem::Release, which the destructor of Access calls.
unfoldable pub release : ℕ → List PoolItem → Result (List PoolItem)
release a [] = abort
release a ((b, n) ∷ goods) =
    let rest = release a goods in
    if b == a
    then (assert (ltb 0 n) >> ok ((b, n - 1) ∷ goods))
    else (rest >>= λ goods'. ok ((b, n) ∷ goods'))

abbrev pub find_reference : ℕ → List (ℕ × ℕ) → Option ℕ
find_reference r [] = none
find_reference r ((q, a) ∷ items) = if q == r then some a else find_reference r items

-- `Items[Reference] = Addee`.
abbrev pub set_reference : ℕ → ℕ → List (ℕ × ℕ) → List (ℕ × ℕ)
set_reference r a [] = (r, a) ∷ []
set_reference r a ((q, b) ∷ items) =
    if q == r then (q, a) ∷ items else (q, b) ∷ set_reference r a items

-- Get: the pool and the address of the good accessed; `new` allocates at `fresh`.
unfoldable pub get : Pool → (reference fresh : ℕ) → Result (Pool × ℕ)
unfolding reserve
get p reference fresh = elim (find_reference reference p.items) [
  | none ↦ reserve fresh ((fresh, 0) ∷ p.goods) >>= λ goods.
      ok (record p { goods = goods; items = set_reference reference fresh p.items }, fresh)
  | some a ↦ reserve a p.goods >>= λ goods. ok (record p { goods = goods }, a)
]

unfoldable pub add : Pool → (reference addee : ℕ) → Pool
add p reference addee = record p { items = set_reference reference addee p.items }

-- The Bindings of the good at an address that is read.
abbrev pub bindings : Option ℕ → Result ℕ
bindings none = abort
bindings (some n) = ok n

-- PoolItem::ShouldBeDeleted.
unfoldable pub should_be_deleted : ℕ → Bool
should_be_deleted zero = true
should_be_deleted (suc n) = false

unfoldable pub prune_loop :
    List (ℕ × ℕ) → List PoolItem → List ℕ → Result (List (ℕ × ℕ) × List PoolItem × List ℕ)
prune_loop [] goods deleted = ok ([], goods, deleted)
prune_loop ((r, a) ∷ items) goods deleted = bindings (find_good a goods) >>= λ n.
    elim (should_be_deleted n) [
      | true ↦ prune_loop items (drop_good a goods) (a ∷ deleted)
      | false ↦ prune_loop items goods deleted >>= λ (items', goods', deleted').
          ok ((r, a) ∷ items', goods', deleted')
    ]

unfoldable pub prune : Pool → Result Pool
unfolding prune_loop
prune p = prune_loop p.items p.goods p.deleted >>= λ (items, goods, deleted).
    ok (record { goods = goods; items = items; deleted = deleted })

-- The destructor.
unfoldable pub destroy_loop :
    List (ℕ × ℕ) → List PoolItem → List ℕ → Result (List PoolItem × List ℕ)
destroy_loop [] goods deleted = ok (goods, deleted)
destroy_loop ((r, a) ∷ items) goods deleted = bindings (find_good a goods) >>= λ n.
    assert (should_be_deleted n) >> destroy_loop items (drop_good a goods) (a ∷ deleted)

unfoldable pub destroy : Pool → Result (List PoolItem × List ℕ)
unfolding destroy_loop
destroy p = destroy_loop p.items p.goods p.deleted
