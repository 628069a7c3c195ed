-- ===== src/Lifetime/Cleaner.antt =====
-- lifetime.h: Cleaner, which owns its items and frees those that were destroyed. An item is its
-- address and its flag. What is freed, and what UpdateItem is called with, are kept in order, the
-- last first.
pub mod Ownership
pub mod Tests
use ren_general.Base.{
  ℕ, Bool, true, false, not, ◌&&◌, List, [], ◌∷◌, ◌++◌, ◌==◌, if◌then◌else◌, push_back,
}
use ren_general.Exception.{Result, ok, abort, ◌>>=◌, ◌>>◌, assert}

pub record Item : Type 0 where
  pub address : ℕ
  pub destroyed : Bool

pub record Cleaner : Type 0 where
  pub warn : Bool
  pub items : List Item
  pub deleted : List ℕ
  pub updated : List ℕ

unfoldable pub new : Bool → Cleaner
new warn = record { warn = warn; items = []; deleted = []; updated = [] }

-- The inherited push_back, of an item that the Item constructor has just made.
unfoldable pub add_item : Cleaner → ℕ → Cleaner
add_item c p = record c { items = push_back c.items (record { address = p; destroyed = false }) }

-- Item::Destroy, of the item at an address.
unfoldable pub destroy : ℕ → List Item → List Item
destroy p [] = []
destroy p (i ∷ is) = (if i.address == p then record i { destroyed = true } else i) ∷ destroy p is

-- The loop of Purge over the items, and what was freed before.
unfoldable pub purge_loop : List Item → List ℕ → List Item × List ℕ
purge_loop [] deleted = ([], deleted)
purge_loop (i ∷ is) deleted =
    let (items, freed) = purge_loop is (if i.destroyed then i.address ∷ deleted else deleted) in
    ((if i.destroyed then items else i ∷ items), freed)

unfoldable pub purge : Cleaner → Cleaner
unfolding purge_loop
purge c =
    let (items, deleted) = purge_loop c.items c.deleted in
    record c { items = items; deleted = deleted }

-- The loop of Update, which also updates the items that it passes.
unfoldable pub update_loop : List Item → List ℕ → List ℕ → List Item × List ℕ × List ℕ
update_loop [] deleted updated = ([], deleted, updated)
update_loop (i ∷ is) deleted updated =
    let (items, freed, seen) =
      update_loop is (if i.destroyed then i.address ∷ deleted else deleted)
        (if i.destroyed then updated else i.address ∷ updated) in
    ((if i.destroyed then items else i ∷ items), freed, seen)

unfoldable pub update : Cleaner → Cleaner
unfolding update_loop
update c =
    let (items, deleted, updated) = update_loop c.items c.deleted c.updated in
    record c { items = items; deleted = deleted; updated = updated }

-- The destructor's loop: what it has freed.
unfoldable pub destruct_loop : Bool → List Item → List ℕ → Result (List ℕ)
destruct_loop warn [] deleted = ok deleted
destruct_loop warn (i ∷ is) deleted =
    assert (not (warn && i.destroyed)) >> destruct_loop warn is (i.address ∷ deleted)

unfoldable pub destruct : Cleaner → Result (List ℕ)
unfolding destruct_loop
destruct c = destruct_loop c.warn c.items c.deleted
