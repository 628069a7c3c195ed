-- ===== src/Arrangement.antt =====
-- arrangement.h: ManyToOneMapper. Objects are their addresses. A call whose assertion fails aborts.
pub mod Set
pub mod Invariant
pub mod Preserve
pub mod Connections
pub mod Tests
use ren_general.Base.{
  ℕ, Bool, true, false, not, Option, none, some, List, [], ◌∷◌, ◌++◌, ◌==◌, if◌then◌else◌, contains,
  push_back,
}
use ren_general.Exception.{Result, ok, throw, abort, out_of_fuel, ◌>>=◌, ◌>>◌, assert}

-- A mapping: the address of the B, and those of the As connected to it.
abbrev pub Mapping : Type 0
Mapping = ℕ × List ℕ

pub record ManyToOneMapper : Type 0 where
  pub a : List ℕ
  pub mappings : List Mapping

unfoldable pub new : ManyToOneMapper
new = record { a = []; mappings = [] }

-- `vector::erase` of the element that `std::find` finds.
abbrev pub erase : ℕ → List ℕ → List ℕ
erase x [] = []
erase x (y ∷ ys) = if y == x then ys else y ∷ erase x ys

abbrev pub has_b_in : ℕ → List Mapping → Bool
has_b_in b [] = false
has_b_in b ((k, l) ∷ ms) = if k == b then true else has_b_in b ms

unfoldable pub has_a : ManyToOneMapper → ℕ → Bool
has_a m a = contains a m.a

unfoldable pub has_b : ManyToOneMapper → ℕ → Bool
has_b m b = has_b_in b m.mappings

-- The mapping that `std::find_if` finds; the end iterator is none.
abbrev pub find_b : ℕ → List Mapping → Option (List ℕ)
find_b b [] = none
find_b b ((k, l) ∷ ms) = if k == b then some l else find_b b ms

-- The same mapping with another list.
abbrev pub set_b : ℕ → List ℕ → List Mapping → List Mapping
set_b b l [] = []
set_b b l ((k, l') ∷ ms) = if k == b then (k, l) ∷ ms else (k, l') ∷ set_b b l ms

abbrev pub erase_b : ℕ → List Mapping → List Mapping
erase_b b [] = []
erase_b b ((k, l) ∷ ms) = if k == b then ms else (k, l) ∷ erase_b b ms

unfoldable pub add_a : ManyToOneMapper → ℕ → Result ManyToOneMapper
unfolding has_a
add_a m a = assert (not (has_a m a)) >> ok (record m { a = push_back m.a a })

unfoldable pub add_b : ManyToOneMapper → ℕ → Result ManyToOneMapper
unfolding has_b
add_b m b = assert (not (has_b m b)) >> ok (record m { mappings = push_back m.mappings (b, []) })

-- The loop of RemoveA over the mappings, with the assertion behind each erasure.
unfoldable pub remove_from_mappings : ℕ → List Mapping → Result (List Mapping)
remove_from_mappings a [] = ok []
remove_from_mappings a ((k, l) ∷ ms) =
    if contains a l
    then (assert (not (contains a (erase a l)))
        >> (remove_from_mappings a ms >>= λ ms'. ok ((k, erase a l) ∷ ms')))
    else (remove_from_mappings a ms >>= λ ms'. ok ((k, l) ∷ ms'))

unfoldable pub remove_a : ManyToOneMapper → ℕ → Result ManyToOneMapper
unfolding has_a
remove_a m a =
    assert (has_a m a)
    >> (remove_from_mappings a m.mappings >>= λ ms. ok (record { a = erase a m.a; mappings = ms }))

unfoldable pub remove_b : ManyToOneMapper → ℕ → Result ManyToOneMapper
unfolding has_b
remove_b m b = assert (has_b m b) >> ok (record m { mappings = erase_b b m.mappings })

abbrev pub clear_all : List Mapping → List Mapping
clear_all [] = []
clear_all ((k, l) ∷ ms) = (k, []) ∷ clear_all ms

unfoldable pub disconnect_all : ManyToOneMapper → ManyToOneMapper
disconnect_all m = record m { mappings = clear_all m.mappings }

-- `abort` for the end iterator is never reached behind the assertion on HasB.
abbrev pub found {ℓ} : {A : Type ℓ} → Option A → Result A
found none = abort
found (some x) = ok x

unfoldable pub connect : ManyToOneMapper → ℕ → ℕ → Result ManyToOneMapper
unfolding has_a has_b
connect m a b =
    assert (has_a m a)
    >> (assert (has_b m b)
        >> (found (find_b b m.mappings) >>= λ l.
            assert (not (contains a l))
            >> ok (record m { mappings = set_b b (push_back l a) m.mappings })))

unfoldable pub disconnect : ManyToOneMapper → ℕ → ℕ → Result ManyToOneMapper
unfolding has_a has_b
disconnect m a b =
    assert (has_a m a)
    >> (assert (has_b m b)
        >> (found (find_b b m.mappings) >>= λ l.
            assert (contains a l) >> ok (record m { mappings = set_b b (erase a l) m.mappings })))

unfoldable pub get_b_mappings : ManyToOneMapper → ℕ → Result (List ℕ)
unfolding has_b
get_b_mappings m b = assert (has_b m b) >> found (find_b b m.mappings)
