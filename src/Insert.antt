-- ===== src/Insert.antt =====
-- insert.h: inserts, and the slots that know when their insert is gone. Inserts and slots are
-- numbers. A slot has no destructor of its own: an insert keeps the address of its flag.
pub mod Attached
pub mod Tests
use ren_general.Base.{put, ℕ, Bool, true, false, not, Option, none, some, ◌==◌, if◌then◌else◌}
use ren_general.Exception.{Result, ok, abort, assert, ◌>>◌, ◌>>=◌}

-- `base` and `active` are members of inserts, `attachment` and `filled` of slots.
pub record Store : Type 0 where
  pub base : ℕ → ℕ
  pub active : ℕ → Option ℕ
  pub attachment : ℕ → ℕ
  pub filled : ℕ → Bool

abbrev pub empty : Store
empty = record { base = λ i. i; active = λ i. none; attachment = λ t. t; filled = λ t. false }

-- The constructor of Insert.
unfoldable pub new_insert : Store → ℕ → ℕ → Store
new_insert s i base = record s { base = put s.base i base; active = put s.active i none }

abbrev pub clear : (ℕ → Bool) → Option ℕ → ℕ → Bool
clear filled none = filled
clear filled (some t) = put filled t false

-- The destructor of Insert; what is left at the address is not read again.
unfoldable pub destroy_insert : Store → ℕ → Store
destroy_insert s i = record s { filled = clear s.filled (s.active i); active = put s.active i none }

unfoldable pub get_base : Store → ℕ → ℕ
get_base s i = s.base i

unfoldable pub link : Store → ℕ → ℕ → Store
link s i t = record s { active = put s.active i (some t) }

-- The constructor of Slot, which leaves the attachment as it finds it.
unfoldable pub new_slot : Store → ℕ → Store
new_slot s t = record s { filled = put s.filled t false }

-- Slot::Insert.
unfoldable pub insert : Store → ℕ → ℕ → Result Store
unfolding get_base link
insert s t i =
    assert (not (s.filled t))
    >> ok (
        link
          (record s {
            filled = put s.filled t true;
            attachment = put s.attachment t (get_base s i);
          })
          i t)

unfoldable pub is_valid : Store → ℕ → Bool
is_valid s t = s.filled t

-- `operator !`.
unfoldable pub is_vacant : Store → ℕ → Bool
is_vacant s t = not (s.filled t)

-- `operator *` and `operator ->`.
unfoldable pub get_attachment : Store → ℕ → ℕ
get_attachment s t = s.attachment t
