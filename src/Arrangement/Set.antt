-- ===== src/Arrangement/Set.antt =====
-- arrangement.h: Set, a std::set, of elements that are numbers. The elements stand in increasing
-- order, each once.
use ren_general.Base.{ℕ, ◌≡◌, Bool, ◌||◌, List, [], ◌∷◌, ◌==◌, ltb, if◌then◌else◌, contains, arith}

-- The `insert` of std::set.
unfoldable pub insert_element : ℕ → List ℕ → List ℕ
insert_element v [] = v ∷ []
insert_element v (x ∷ xs) =
    let rest = insert_element v xs in
    if v == x then x ∷ xs else if ltb v x then v ∷ x ∷ xs else x ∷ rest

unfoldable pub empty_set : List ℕ
empty_set = []

unfoldable pub from_element : ℕ → List ℕ
from_element element = insert_element element []

-- `insert` of a range, which the constructor from a list calls on an empty set.
unfoldable pub insert_all : List ℕ → List ℕ → List ℕ
insert_all [] set = set
insert_all (x ∷ xs) set = insert_all xs (insert_element x set)

unfoldable pub from_elements : List ℕ → List ℕ
from_elements elements = insert_all elements []

-- And, of a set and of an element.
unfoldable pub and_set : List ℕ → List ℕ → List ℕ
and_set set object = insert_all object set

unfoldable pub and_element : List ℕ → ℕ → List ℕ
and_element set element = insert_element element set

-- The assignment of an element.
unfoldable pub assign_element : List ℕ → ℕ → List ℕ
assign_element set element = insert_element element []

-- Contains, by the `find` of std::set.
unfoldable pub has_element : List ℕ → ℕ → Bool
has_element set element = contains element set

contains-insert_element :
    (x v : ℕ) (set : List ℕ) → contains x (insert_element v set) ≡ ((v == x) || contains x set)
unfolding insert_element
contains-insert_element x v [] = ground arith
contains-insert_element x v (y ∷ ys) = ground (arith, contains-insert_element x v ys)

contains-insert_all :
    (x : ℕ) (vs set : List ℕ) → contains x (insert_all vs set) ≡ (contains x set || contains x vs)
unfolding insert_all
contains-insert_all x [] set = ground arith
contains-insert_all x (v ∷ vs) set =
    ground (arith, contains-insert_all x vs (insert_element v set), contains-insert_element x v set)

-- And with a set makes the union, and an assignment leaves one element.
pub has_element-and_set :
    (set object : List ℕ) (x y : ℕ)
    → (has_element (and_set set object) x ≡ (has_element set x || has_element object x))
      × (has_element (and_element set y) x ≡ ((y == x) || has_element set x))
      × (has_element (assign_element set y) x ≡ (y == x))
unfolding has_element and_set and_element assign_element insert_element
has_element-and_set set object x y =
    (contains-insert_all x object set, contains-insert_element x y set, ground arith)
