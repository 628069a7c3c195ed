-- ===== src/Singleton.antt =====
-- singleton.h: the one instance of a class. An instance is its number in the order in which they
-- are made; `deleted` is the list of those that were deleted, the last first.
pub mod Instances
pub mod Tests
use ren_general.Base.{ℕ, suc, Option, none, some, List, [], ◌∷◌}
use ren_general.Exception.{Result, ok, abort}

pub record Singleton : Type 0 where
  pub instance_number : Option ℕ
  pub made : ℕ
  pub deleted : List ℕ

-- Before any call.
unfoldable pub initial : Singleton
initial = record { instance_number = none; made = 0; deleted = [] }

abbrev pub start_from : Singleton → Option ℕ → Singleton
start_from s (some i) = s
start_from s none = record s { instance_number = some s.made; made = suc s.made }

unfoldable pub start : Singleton → Singleton
start s = start_from s s.instance_number

abbrev pub delete_instance : List ℕ → Option ℕ → List ℕ
delete_instance deleted none = deleted
delete_instance deleted (some i) = i ∷ deleted

unfoldable pub stop : Singleton → Singleton
stop s = record s { instance_number = none; deleted = delete_instance s.deleted s.instance_number }

abbrev pub instance_or_abort : Option ℕ → Result ℕ
instance_or_abort none = abort
instance_or_abort (some i) = ok i

unfoldable pub get : Singleton → Result ℕ
get s = instance_or_abort s.instance_number
