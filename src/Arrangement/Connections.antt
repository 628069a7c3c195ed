-- ===== src/Arrangement/Connections.antt =====
-- What the operations do to the connections.
use mathlib.Core.Option
use ren_general.Base.{
  ℕ, ◌≡◌, refl, ◌∙◌, true, false, some, List, [], ◌∷◌, arith, ◌==◌, if◌then◌else◌, contains,
  push_back,
}
use ren_general.Exception.{ok, ◌>>=◌}
use ren_general.Arrangement.{
  Mapping, ManyToOneMapper, erase, has_b_in, find_b, set_b, has_a, has_b, remove_a, connect,
  disconnect, get_b_mappings,
}
use ren_general.Arrangement.Invariant.{
  IsValid, erase_everywhere, remove_from_mappings_lem, count-erase, not-contains,
}

contains-push_back : (a : ℕ) (l : List ℕ) → contains a (push_back l a) ≡ true
contains-push_back a [] = ground arith
contains-push_back a (x ∷ xs) = ground (arith, contains-push_back a xs)

erase-push_back : (a : ℕ) (l : List ℕ) → contains a l ≡ false → erase a (push_back l a) ≡ l
erase-push_back a [] h = ground arith
erase-push_back a (x ∷ xs) h = ground (arith, erase-push_back a xs)

find_b-set_b :
    (b c : ℕ) (l : List ℕ) (ms : List Mapping)
    → find_b c (set_b b l ms) ≡ (if b == c then Option.map (λ _. l) (find_b c ms) else find_b c ms)
find_b-set_b b c l [] = ground arith
find_b-set_b b c l ((k, l') ∷ ms) = ground (arith, find_b-set_b b c l ms)

has_b_in-set_b :
    (b c : ℕ) (l : List ℕ) (ms : List Mapping) → has_b_in c (set_b b l ms) ≡ has_b_in c ms
has_b_in-set_b b c l [] = refl
has_b_in-set_b b c l ((k, l') ∷ ms) = ground (arith, has_b_in-set_b b c l ms)

set_b-set_b : (b : ℕ) (l l' : List ℕ) (ms : List Mapping) → set_b b l (set_b b l' ms) ≡ set_b b l ms
set_b-set_b b l l' [] = refl
set_b-set_b b l l' ((k, j) ∷ ms) = ground (arith, set_b-set_b b l l' ms)

set_b-find_b : (b : ℕ) (l : List ℕ) (ms : List Mapping) → find_b b ms ≡ some l → set_b b l ms ≡ ms
set_b-find_b b l [] h = refl
set_b-find_b b l ((k, j) ∷ ms) h = ground (arith, set_b-find_b b l ms)

find_b-get_b_mappings :
    (m : ManyToOneMapper) (b : ℕ) (l : List ℕ)
    → get_b_mappings m b ≡ ok l
    → find_b b m.mappings ≡ some l
unfolding get_b_mappings
find_b-get_b_mappings m b l h = ground arith

-- Connecting an A of the mapper to a B of the mapper that it is not connected to, and disconnecting
-- it again, leaves the mapper as it was.
pub disconnect-connect :
    (m : ManyToOneMapper) (a b : ℕ) (l : List ℕ)
    → has_a m a ≡ true
    → has_b m b ≡ true
    → get_b_mappings m b ≡ ok l
    → contains a l ≡ false
    → (connect m a b >>= λ m'. disconnect m' a b) ≡ ok m
unfolding connect disconnect has_a has_b
disconnect-connect m a b l ha hb e fresh =
    let f = find_b-get_b_mappings m b l e in
    let joined : find_b b (set_b b (push_back l a) m.mappings) ≡ some (push_back l a) =
      find_b-set_b b b (push_back l a) m.mappings ∙ rw f (ground arith) in
    rw
      (
        ha,
        hb,
        f,
        fresh,
        ha,
        has_b_in-set_b b b (push_back l a) m.mappings,
        hb,
        joined,
        contains-push_back a l,
        erase-push_back a l fresh,
        set_b-set_b b l (push_back l a) m.mappings,
        set_b-find_b b l m.mappings f,
      )
      refl

find_b-erase_everywhere :
    (a b : ℕ) (ms : List Mapping)
    → find_b b (erase_everywhere a ms) ≡ Option.map (erase a) (find_b b ms)
find_b-erase_everywhere a b [] = refl
find_b-erase_everywhere a b ((k, l) ∷ ms) = ground (arith, find_b-erase_everywhere a b ms)

-- On a valid mapper that has the A, RemoveA returns: the A is gone, and each B keeps its As but
-- that one.
pub remove_a_lem :
    (m : ManyToOneMapper) (a b : ℕ)
    → IsValid m
    → has_a m a ≡ true
    → (m' : ManyToOneMapper) × (remove_a m a ≡ ok m')
      × (has_a m' a ≡ false)
      × (find_b b m'.mappings ≡ Option.map (erase a) (find_b b m.mappings))
unfolding remove_a has_a
remove_a_lem m a b v h = (
  record { a = erase a m.a; mappings = erase_everywhere a m.mappings },
  rw (h, remove_from_mappings_lem a m.mappings m.a v.within (v.a_once a)) refl,
  not-contains a (erase a m.a) (ground (arith, count-erase a a m.a h, v.a_once a)),
  find_b-erase_everywhere a b m.mappings,
)
