-- ===== src/Arrangement/Invariant.antt =====
-- The mapper's invariant: no A and no B twice, no A twice in a mapping, and only known As in the
-- mappings. Under it no operation fails but by the assertion on its own arguments.
use ren_general.Base.{
  ℕ, ◌+◌, ◌≤◌, ◌<◌, ◌≡◌, refl, ap, inl, inr, true, false, List, [], ◌∷◌, arith, ◌==◌, if◌then◌else◌,
  Bool-cases, contains, count,
}
use ren_general.Exception.{ok}
use ren_general.Arrangement.{Mapping, ManyToOneMapper, erase, remove_from_mappings}

abbrev pub keys : List Mapping → List ℕ
keys [] = []
keys ((k, l) ∷ ms) = k ∷ keys ms

-- The As of one mapping: each at most once, and none that the mapper does not have.
abbrev pub Within : List ℕ → List ℕ → Type 0
Within l known = (x : ℕ) → count x l ≤ count x known

abbrev pub AllWithin : List Mapping → List ℕ → Type 0
AllWithin [] known = Unit {0}
AllWithin ((k, l) ∷ ms) known = Within l known × AllWithin ms known

-- No A and no B twice.
pub record IsValid (m : ManyToOneMapper) : Type 0 where
  pub a_once : (x : ℕ) → count x m.a ≤ 1
  pub b_once : (x : ℕ) → count x (keys m.mappings) ≤ 1
  pub within : AllWithin m.mappings m.a

pub contains-count : (x : ℕ) (l : List ℕ) → contains x l ≡ false → count x l ≡ 0
contains-count x [] h = refl
contains-count x (y ∷ ys) h = ground (arith, contains-count x ys)

pub contains-count_pos : (x : ℕ) (l : List ℕ) → contains x l ≡ true → 0 < count x l
contains-count_pos x [] h = cc
contains-count_pos x (y ∷ ys) h = ground (arith, contains-count_pos x ys)

pub not-contains : (x : ℕ) (l : List ℕ) → count x l ≡ 0 → contains x l ≡ false
not-contains x [] h = refl
not-contains x (y ∷ ys) h = ground (arith, not-contains x ys)

-- Erasing takes one occurrence of the element away.
pub count-erase :
    (x y : ℕ) (l : List ℕ)
    → contains y l ≡ true
    → count x (erase y l) + (if y == x then 1 else 0) ≡ count x l
count-erase x y [] h = cc
count-erase x y (z ∷ zs) h = ground (arith, count-erase x y zs)

pub erase_absent : (y : ℕ) (l : List ℕ) → contains y l ≡ false → erase y l ≡ l
erase_absent y [] h = refl
erase_absent y (z ∷ zs) h = ground (arith, erase_absent y zs)

pub count-erase-le : (x y : ℕ) (l : List ℕ) → count x (erase y l) ≤ count x l
count-erase-le x y [] = omega arith
count-erase-le x y (z ∷ zs) = ground (arith, count-erase-le x y zs)

abbrev pub erase_everywhere : ℕ → List Mapping → List Mapping
erase_everywhere a [] = []
erase_everywhere a ((k, l) ∷ ms) = (k, erase a l) ∷ erase_everywhere a ms

-- The loop of RemoveA passes its assertions: it erases the A from each mapping.
pub remove_from_mappings_lem :
    (a : ℕ) (ms : List Mapping) (known : List ℕ)
    → AllWithin ms known
    → count a known ≤ 1
    → remove_from_mappings a ms ≡ ok (erase_everywhere a ms)
unfolding remove_from_mappings
remove_from_mappings_lem a [] known w h = refl
remove_from_mappings_lem a ((k, l) ∷ ms) known w h = elim (Bool-cases (contains a l)) [
  | inl e ↦
      rw
        (
          e,
          not-contains a (erase a l) (ground (arith, count-erase a a l e, w.0 a)),
          remove_from_mappings_lem a ms known w.1 h,
        )
        refl
  | inr e ↦ rw (e, remove_from_mappings_lem a ms known w.1 h, erase_absent a l e) refl
]

pub keys-erase_everywhere : (a : ℕ) (ms : List Mapping) → keys (erase_everywhere a ms) ≡ keys ms
keys-erase_everywhere a [] = refl
keys-erase_everywhere a ((k, l) ∷ ms) = ap (λ ks. k ∷ ks) (keys-erase_everywhere a ms)

pub Within-erase :
    (a : ℕ) (l known : List ℕ)
    → contains a known ≡ true
    → count a known ≤ 1
    → Within l known
    → Within (erase a l) (erase a known)
Within-erase a l known h one w x = elim (Bool-cases (contains a l)) [
  | inl e ↦ omega (arith, count-erase x a l e, count-erase x a known h, w x)
  | inr e ↦
      rw (erase_absent a l e) (ground (arith, contains-count a l e, count-erase x a known h, w x))
]
