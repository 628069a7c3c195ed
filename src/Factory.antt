-- ===== src/Factory.antt =====
-- factory.h: Factory and ActiveFactory, which own their products and free those that are to be
-- deleted. A product is its address and its flag. What is freed, and what Destroy and UpdateProduct
-- are called with, are kept in order, the last first.
pub mod Update
pub mod Ownership
pub mod Tests
use ren_general.Base.{
  ℕ, zero, suc, Bool, true, false, not, List, [], ◌∷◌, ◌++◌, ◌==◌, if◌then◌else◌, length, push_back,
}
use ren_general.Lifetime.Deleter.{delete_all}
use ren_general.Exception.{Result, ok, ◌>>=◌, ◌>>◌, assert}

pub record Product : Type 0 where
  pub address : ℕ
  pub deletable : Bool

-- Its constructor, at an address.
unfoldable pub new_product : ℕ → Product
new_product p = record { address = p; deletable = false }

unfoldable pub should_be_deleted : Product → Bool
should_be_deleted i = i.deletable

-- Product::Delete, and the call of Destroy.
unfoldable pub delete_product : Product → List ℕ → Product × List ℕ
delete_product i destroyed = (record i { deletable = true }, i.address ∷ destroyed)

pub record Factory : Type 0 where
  pub check_on_destruct : Bool
  pub items : List Product
  pub deleted : List ℕ
  pub destroyed : List ℕ
  pub updated : List ℕ

unfoldable pub new : Bool → Factory
new should_check = record {
  check_on_destruct = should_check;
  items = [];
  deleted = [];
  destroyed = [];
  updated = [];
}

unfoldable pub add_item : Factory → Product → Factory
add_item f i = record f { items = i ∷ f.items }

-- The products of a factory after Delete of the one at an address.
unfoldable pub delete_at : ℕ → List Product → List Product
unfolding delete_product
delete_at p [] = []
delete_at p (i ∷ is) = (if i.address == p then (delete_product i []).0 else i) ∷ delete_at p is

unfoldable pub delete : Factory → ℕ → Factory
unfolding delete_at
delete f p = record f { items = delete_at p f.items; destroyed = p ∷ f.destroyed }

-- The loop of Clean over the items, and what was freed before.
unfoldable pub clean_loop : List Product → List ℕ → List Product × List ℕ
unfolding should_be_deleted
clean_loop [] deleted = ([], deleted)
clean_loop (i ∷ is) deleted =
    let (items, freed) =
      clean_loop is (if not (should_be_deleted i) then deleted else i.address ∷ deleted) in
    ((if not (should_be_deleted i) then i ∷ items else items), freed)

unfoldable pub clean : Factory → Factory
unfolding clean_loop
clean f =
    let (items, deleted) = clean_loop f.items f.deleted in
    record f { items = items; deleted = deleted }

-- GetStart and GetEnd: the positions of the first item and behind the last.
unfoldable pub get_start : Factory → ℕ
get_start f = 0

unfoldable pub get_end : Factory → ℕ
get_end f = length f.items

-- The destructor's loop: what it has freed.
unfoldable pub destruct_loop : Bool → List Product → List ℕ → Result (List ℕ)
unfolding should_be_deleted
destruct_loop check [] deleted = ok deleted
destruct_loop check (i ∷ is) deleted =
    (if check then assert (should_be_deleted i) else ok tt)
    >> destruct_loop check is (i.address ∷ deleted)

unfoldable pub destruct : Factory → Result (List ℕ)
unfolding destruct_loop
destruct f = destruct_loop f.check_on_destruct f.items f.deleted

-- Delete of the products at addresses, in their order.
unfoldable pub delete_each : List ℕ → List Product → List Product
unfolding delete_at
delete_each [] is = is
delete_each (p ∷ ps) is = delete_each ps (delete_at p is)

-- ActiveFactory. UpdateProduct belongs to the derived class: `deletes` says, for the product that it is
-- called with, of which products it calls Delete, which may be any, in their order. It is taken to
-- call nothing else of the factory.
module _ (deletes : ℕ → List ℕ) where
  -- Both parts of the list of items after UpdateProduct of one, and the calls of Destroy.
  unfoldable pub update_product :
      Product → (passed is : List Product) → List ℕ → List Product × List Product × List ℕ
  unfolding delete_each
  update_product i passed is destroyed =
      let ps = deletes i.address in
      (delete_each ps passed, delete_each ps is, delete_all ps destroyed)

  -- The loop, with a turn for each item, over the items that it has passed and those from the current
  -- one on.
  unfoldable pub update_loop :
      (turns : ℕ)
      → (passed is : List Product) → List ℕ
      → List ℕ
      → List ℕ
      → List Product × List ℕ × List ℕ × List ℕ
  unfolding update_product should_be_deleted
  update_loop zero passed is deleted destroyed updated = (passed ++ is, deleted, destroyed, updated)
  update_loop (suc turns) passed [] deleted destroyed updated =
      (passed ++ [], deleted, destroyed, updated)
  update_loop (suc turns) passed (i ∷ is) deleted destroyed updated =
      let (passed', rest, calls) = update_product i (push_back passed i) is destroyed in
      if not (should_be_deleted i)
      then update_loop turns passed' rest deleted calls (i.address ∷ updated)
      else update_loop turns passed is (i.address ∷ deleted) destroyed updated

  unfoldable pub update : Factory → Factory
  unfolding update_loop
  update f =
      let (items, deleted, destroyed, updated) =
        update_loop (length f.items) [] f.items f.deleted f.destroyed f.updated in
      record f { items = items; deleted = deleted; destroyed = destroyed; updated = updated }
