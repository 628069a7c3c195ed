-- ===== src/Entanglement.antt =====
-- entanglement.h: pairs of objects that know of each other. The objects are numbers, and a store
-- says what each points to. The second constructor, which alone joins two sides, is left out: it
-- takes the pointer `Coperand.Other` for an object, and an object for a pointer, and does not compile
-- where it is used. The other members are those of any store, joined sides or not.
use mathlib.Core.Option
use ren_general.Base.{put, ℕ, Bool, true, false, not, Option, none, some}
use ren_general.Exception.{Result, ok, abort}

-- `base` is what an entanglement stands for, and `other` the entanglement at its other side.
pub record Store : Type 0 where
  pub base : ℕ → ℕ
  pub other : ℕ → Option ℕ

-- A store without entanglements.
abbrev pub empty : Store
empty = record { base = λ a. a; other = λ a. none }

-- The first constructor, at an address.
unfoldable pub new : Store → ℕ → ℕ → Store
new s a base = record { base = put s.base a base; other = put s.other a none }

-- The side that an entanglement points to loses its pointer.
abbrev pub release : (ℕ → Option ℕ) → Option ℕ → ℕ → Option ℕ
release other none = other
release other (some b) = put other b none

-- The destructor; what is left at the address is not read again.
unfoldable pub destruct : Store → ℕ → Store
destruct s a = record s { other = put (release s.other (s.other a)) a none }

abbrev pub is_some : Option ℕ → Bool
is_some none = false
is_some (some b) = true

unfoldable pub is_valid : Store → ℕ → Bool
is_valid s a = is_some (s.other a)

-- `operator !`.
unfoldable pub is_alone : Store → ℕ → Bool
is_alone s a = not (is_some (s.other a))

-- What is at the other side, where an assertion or its absence lets it be read.
abbrev pub other_base : Store → Option ℕ → Result ℕ
other_base s none = abort
other_base s (some b) = ok (s.base b)

-- Get and `operator ->`, which assert that there is another side.
unfoldable pub get : Store → ℕ → Result ℕ
get s a = other_base s (s.other a)

-- `operator *` asserts nothing: without another side, where this is none, it is undefined.
unfoldable pub star : Store → ℕ → Option ℕ
star s a = Option.map s.base (s.other a)
