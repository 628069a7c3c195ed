-- ===== src/Insert/Attached.antt =====
-- A slot is filled by one insert, and knows when that is gone.
use mathlib.Core.Path.{subst}
use ren_general.Base.{put, ℕ, ◌≡◌, ◌≢◌, refl, Bool, true, false, not, Option, none, some, arith}
use ren_general.Exception.{ok, assert, ◌>>◌}
use ren_general.Insert.{
  Store, empty, new_insert, destroy_insert, get_base, link, new_slot, insert, is_valid, clear,
  get_attachment,
}

-- An insert's slot is filled with the insert's base, by no other insert.
abbrev pub IsAttached : Store → Type 0
IsAttached s =
    (i t : ℕ)
    → s.active i ≡ some t
    → (s.filled t ≡ true) × (s.attachment t ≡ s.base i) × ((j : ℕ) → s.active j ≡ some t → i ≡ j)

-- The stores that a program comes to that constructs an insert and a slot where none is in use, and
-- inserts what is in no slot.
pub data Reaches : Store → Type 0 where
  starts : Reaches empty
  creates_insert :
      (s : Store) (i base : ℕ) → s.active i ≡ none → Reaches s → Reaches (new_insert s i base)
  creates_slot : (s : Store) (t : ℕ) → s.filled t ≡ false → Reaches s → Reaches (new_slot s t)
  inserts :
      (s t : Store) (slot i : ℕ)
      → s.active i ≡ none
      → insert s slot i ≡ ok t
      → Reaches s
      → Reaches t
  destroys : (s : Store) (i : ℕ) → Reaches s → Reaches (destroy_insert s i)

empty-IsAttached : IsAttached empty
empty-IsAttached i t e = ground arith

new_insert-IsAttached :
    (s : Store) (i base : ℕ) → s.active i ≡ none → IsAttached s → IsAttached (new_insert s i base)
unfolding new_insert
new_insert-IsAttached s i base e h j t k =
    (grind (arith, h j t), grind (arith, h j t), λ l m. grind (arith, h j t))

new_slot-IsAttached :
    (s : Store) (t : ℕ) → s.filled t ≡ false → IsAttached s → IsAttached (new_slot s t)
unfolding new_slot
new_slot-IsAttached s t e h j u k = let (full, base, only) = h j u k in (grind arith, base, only)

cleared-IsAttached :
    (s : Store) (i : ℕ) (slot : Option ℕ)
    → s.active i ≡ slot
    → IsAttached s
    → IsAttached (record s { filled = clear s.filled slot; active = put s.active i none })
cleared-IsAttached s i none e h j u k =
    (grind (arith, h j u), grind (arith, h j u), λ l m. grind (arith, h j u))
cleared-IsAttached s i (some t) e h j u k =
    (grind (arith, h j u), grind (arith, h j u), λ l m. grind (arith, h j u))

abbrev inserted : Store → ℕ → ℕ → Store
inserted s slot i = record {
  base = s.base;
  active = put s.active i (some slot);
  attachment = put s.attachment slot (s.base i);
  filled = put s.filled slot true;
}

vacant_and_same : {u t : Store} (b : Bool) → (assert (not b) >> ok u) ≡ ok t → (b ≡ false) × (u ≡ t)
vacant_and_same true e = absurd (ground arith)
vacant_and_same false e = (refl, cc e)

insert_lem :
    (s t : Store) (slot i : ℕ)
    → insert s slot i ≡ ok t
    → (s.filled slot ≡ false) × (inserted s slot i ≡ t)
unfolding insert get_base link
insert_lem s t slot i e = vacant_and_same (s.filled slot) e

inserted-IsAttached :
    (s : Store) (slot i : ℕ)
    → s.active i ≡ none
    → s.filled slot ≡ false
    → IsAttached s
    → IsAttached (inserted s slot i)
inserted-IsAttached s slot i e f h j u k =
    (grind (arith, h j u), grind (arith, h j u), λ l m. grind (arith, h j u, h l u))

-- In every store that such a program comes to, an insert in a slot fills it with its base, and no
-- other insert is in the same slot.
pub Reaches-IsAttached : (s : Store) → Reaches s → IsAttached s
unfolding destroy_insert
Reaches-IsAttached s starts = empty-IsAttached
Reaches-IsAttached s (creates_insert t i base e r) =
    new_insert-IsAttached t i base e (Reaches-IsAttached t r)
Reaches-IsAttached s (creates_slot t slot e r) =
    new_slot-IsAttached t slot e (Reaches-IsAttached t r)
Reaches-IsAttached s (inserts t u slot i e k r) =
    let (vacant, same) = insert_lem t s slot i k in
    subst IsAttached same (inserted-IsAttached t slot i e vacant (Reaches-IsAttached t r))
Reaches-IsAttached s (destroys t i r) =
    cleared-IsAttached t i (t.active i) refl (Reaches-IsAttached t r)

-- The destructor of an insert leaves its slot invalid, and every other slot that an insert is in
-- valid, with what that insert stands for.
pub destroy_insert_lem :
    (s : Store) (i t : ℕ)
    → Reaches s
    → s.active i ≡ some t
    → (is_valid (destroy_insert s i) t ≡ false)
      × ((j u : ℕ)
          → i ≢ j
          → s.active j ≡ some u
          → (is_valid (destroy_insert s i) u ≡ true)
            × (get_attachment (destroy_insert s i) u ≡ s.base j))
unfolding destroy_insert is_valid get_attachment
destroy_insert_lem s i t r e =
    let h = Reaches-IsAttached s r in
    rw e (grind arith, λ j u d k. (grind (arith, h i t, h j u), (h j u k).1))
