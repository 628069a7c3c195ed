-- ===== src/Factory/Ownership.antt =====
-- What a factory has freed when it is gone.
use ren_general.Base.{
  ℕ, ◌+◌, ◌≡◌, refl, ◌∙◌, inl, inr, Bool, true, false, not, ◌&&◌, ◌||◌, some, List, [], ◌∷◌, arith,
  if◌then◌else◌, length, Bool-cases, count,
}
use ren_general.Exception.{ok, abort}
use ren_general.Factory.Update.{addresses, addresses-delete_at, clean_loop-count, update_loop-count}
use ren_general.Lifetime.Deleter.{delete_all, count-delete_all}
use ren_general.Lifetime.Deleter.Contract.{Container, Ledger, run, destruct-total, run-Keeps}
use ren_general.Factory.{
  Product, Factory, new, new_product, should_be_deleted, add_item, delete, clean, destruct_loop,
  destruct, update,
}

abbrev pub all_deletable : List Product → Bool
all_deletable [] = true
all_deletable (i ∷ is) = i.deletable && all_deletable is

destruct_loop-checked :
    (is : List Product) (deleted : List ℕ)
    → destruct_loop true is deleted
      ≡ (if all_deletable is then ok (delete_all (addresses is) deleted) else abort)
unfolding destruct_loop should_be_deleted delete_all
destruct_loop-checked [] deleted = refl
destruct_loop-checked (i ∷ is) deleted = elim (Bool-cases i.deletable) [
  | inl e ↦ rw e (destruct_loop-checked is (i.address ∷ deleted))
  | inr e ↦ rw e refl
]

destruct_loop-unchecked :
    (is : List Product) (deleted : List ℕ)
    → destruct_loop false is deleted ≡ ok (delete_all (addresses is) deleted)
unfolding destruct_loop delete_all
destruct_loop-unchecked [] deleted = refl
destruct_loop-unchecked (i ∷ is) deleted = destruct_loop-unchecked is (i.address ∷ deleted)

destruct_loop_lem :
    (check : Bool) (is : List Product) (deleted : List ℕ)
    → destruct_loop check is deleted
      ≡ (if not check || all_deletable is then ok (delete_all (addresses is) deleted) else abort)
destruct_loop_lem true is deleted = destruct_loop-checked is deleted
destruct_loop_lem false is deleted = destruct_loop-unchecked is deleted

-- The destructor frees the items that are left, from the first to the last, and fails an assertion
-- exactly where it is to check and an item is not to be deleted.
pub destruct_lem :
    (f : Factory)
    → destruct f ≡ (
        if not f.check_on_destruct || all_deletable f.items
        then ok (delete_all (addresses f.items) f.deleted)
        else abort)
unfolding destruct
destruct_lem f = destruct_loop_lem f.check_on_destruct f.items f.deleted

pub data Call : Type 0 where
  adds deletes : ℕ → Call
  cleans : Call
  updates : (ℕ → List ℕ) → Call

unfoldable pub act : Factory → Call → Factory
act f (adds p) = add_item f (new_product p)
act f (deletes p) = delete f p
act f cleans = clean f
act f (updates each) = update each f

abbrev pub handed : Factory → Call → List ℕ
handed f (adds p) = p ∷ []
handed f (deletes p) = []
handed f cleans = []
handed f (updates each) = []

pub act-count :
    (p : ℕ) (f : Factory) (c : Call)
    → count p (addresses (act f c).items) + count p (act f c).deleted + count p []
      ≡ count p (addresses f.items) + count p f.deleted + count p (handed f c)
unfolding act add_item new_product delete clean update
act-count p f (adds q) = omega arith
act-count p f (deletes q) = rw (addresses-delete_at q f.items) refl
act-count p f cleans = omega (arith, clean_loop-count p f.items f.deleted)
act-count p f (updates each) =
    omega
      (arith, update_loop-count each p (length f.items) [] f.items f.deleted f.destroyed f.updated)

act-check : (f : Factory) (c : Call) → (act f c).check_on_destruct ≡ f.check_on_destruct
unfolding act add_item delete clean update
act-check f (adds q) = refl
act-check f (deletes q) = refl
act-check f cleans = refl
act-check f (updates each) = refl

pub new-empty :
    (check : Bool) (p : ℕ) → count p (addresses (new check).items) + count p (new check).deleted ≡ 0
unfolding new
new-empty check p = refl

-- A factory as a container, with what a destructor that does not check frees.
abbrev pub container : Bool → Container
container check = record {
  State = Factory;
  Call = Call;
  start = new check;
  act = λ f c. some (act f c);
  held = λ f. addresses f.items;
  deleted = λ f. f.deleted;
  handed = handed;
  released = λ f c. [];
  destruct = λ f. ok (delete_all (addresses f.items) f.deleted);
  starts = new-empty check;
  conserves = λ f c p. act-count p f c;
  destructs = λ f. (
    delete_all (addresses f.items) f.deleted,
    refl,
    λ p. count-delete_all p (addresses f.items) f.deleted,
  );
}

-- After any calls of a factory, the destructor returns unless it is to check and an item is left
-- that is not to be deleted, and then every address was freed as often as it was handed over.
pub destruct-act :
    (check : Bool) (cs : List Call)
    → (g : Ledger (container check)) × (run (container check) cs ≡ some g)
      × ((freed : List ℕ) × (destruct g.state
            ≡ (if not check || all_deletable g.state.items then ok freed else abort))
          × ((p : ℕ) → count p freed ≡ count p g.into))
unfolding new
destruct-act check cs =
    let (g, e, rest) = destruct-total (container check) (λ f c. (act f c, refl)) (λ f c. refl) cs in
    let same =
      run-Keeps (container check) (λ f. f.check_on_destruct ≡ check) (λ f c h. act-check f c ∙ h) cs
        refl e in
    (
      g,
      e,
      (
        delete_all (addresses g.state.items) g.state.deleted,
        rw (destruct_lem g.state, same) refl,
        λ p. cc (rest.2 p, rest.1),
      ),
    )
