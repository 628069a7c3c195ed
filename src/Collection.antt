-- ===== src/Collection.antt =====
-- collection.h: the iterables. An iterator of a standard container is a position in a list.
pub mod Visits
pub mod Tests
use ren_general.Base.{ℕ, zero, suc, Bool, List, [], ◌∷◌, ltb, length, if◌then◌else◌}
use ren_general.Exception.{Result, ok, out_of_fuel, ◌>>=◌}

-- SimpleIterable and IteratorRange (and VectorIteratorRange): the functions that give the iterators,
-- and the iterators.
pub record SimpleIterable (I : Type 0) : Type 0 where
  pub begin_implementation : Unit {0} → I
  pub end_implementation : Unit {0} → I

pub record IteratorRange (I : Type 0) : Type 0 where
  pub first : I
  pub last : I

module _ {I : Type 0} where
  unfoldable pub simple_begin : SimpleIterable I → I
  simple_begin r = r.begin_implementation tt

  unfoldable pub simple_end : SimpleIterable I → I
  simple_end r = r.end_implementation tt

  unfoldable pub range_begin : IteratorRange I → I
  range_begin r = r.first

  unfoldable pub range_end : IteratorRange I → I
  range_end r = r.last

-- IndexIterable, of a class with GetCount and GetValue.
module _ {V : Type 0} (count : ℕ) (get_value : ℕ → V) where
  -- The Iterator's constructor, `operator ++`, `operator !=`, which looks at its own position
  -- only, and `operator *`.
  pub record Iterator : Type 0 where
    pub position : ℕ

  unfoldable pub begin : Iterator
  begin = record { position = 0 }

  unfoldable pub end : Iterator
  end = record { position = 0 }

  unfoldable pub advance : Iterator → Iterator
  advance i = record { position = suc i.position }

  unfoldable pub differs : Iterator → Iterator → Bool
  differs i other = ltb i.position count

  unfoldable pub value : Iterator → V
  value i = get_value i.position

  -- The loop `for (auto &Value : Iterable)`, with the values that it visits, on fuel.
  unfoldable pub visit : ℕ → Iterator → Result (List V)
  unfolding advance differs value end
  visit zero i = out_of_fuel
  visit (suc fuel) i =
      let rest = visit fuel (advance i) in
      if differs i end then (rest >>= λ vs. ok (value i ∷ vs)) else ok []

-- StandardIterable and StandardReverseIterable: a reverse iterator is the position behind its
-- element.
module _ {A : Type 0} where
  unfoldable pub standard_begin : List A → ℕ
  standard_begin base = 0

  unfoldable pub standard_end : List A → ℕ
  standard_end base = length base

  unfoldable pub reverse_begin : List A → ℕ
  reverse_begin base = length base

  unfoldable pub reverse_end : List A → ℕ
  reverse_end base = 0
