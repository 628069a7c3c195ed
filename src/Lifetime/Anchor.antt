-- ===== src/Lifetime/Anchor.antt =====
-- lifetime.h: Anchor, which deletes what it points to. A pointer is a number, and NULL is 0;
-- `deleted` is the list of what `delete` was called with, the last first.
use ren_general.Base.{ℕ, ◌≡◌, refl, Bool, not, List, [], ◌∷◌, ◌==◌}
use ren_general.Exception.{Result, ok, abort, assert, ◌>>◌}

pub record Anchor : Type 0 where
  pub data_pointer : ℕ
  pub deleted : List ℕ

unfoldable pub new : ℕ → Anchor
new p = record { data_pointer = p; deleted = [] }

-- The copy constructor, which only fails.
unfoldable pub copy : Anchor → Result Anchor
copy other = abort

unfoldable pub destruct : Anchor → List ℕ
destruct a = a.data_pointer ∷ a.deleted

-- The conversions and `operator *`, which give the pointer.
unfoldable pub get_pointer : Anchor → ℕ
get_pointer a = a.data_pointer

-- `operator ->`.
unfoldable pub arrow : Anchor → Result ℕ
arrow a = assert (not (a.data_pointer == 0)) >> ok a.data_pointer

-- Assignment of another anchor, which only fails.
unfoldable pub assign_anchor : Anchor → Anchor → Result Anchor
assign_anchor a other = abort

-- Assignment of a pointer, and what it returns.
unfoldable pub assign : Anchor → ℕ → Anchor × ℕ
assign a p = (record a { data_pointer = p }, p)

unfoldable pub equals : Anchor → ℕ → Bool
equals a other = a.data_pointer == other

unfoldable pub differs : Anchor → ℕ → Bool
differs a other = not (a.data_pointer == other)

-- What the anchor held before an assignment is not deleted by it, nor by the destructor.
assign-destruct : (p q : ℕ) → destruct (assign (new p) q).0 ≡ q ∷ []
unfolding destruct assign new
assign-destruct p q = refl
