-- ===== src/StateMachine/Transition.antt =====
-- When a requested state becomes the running one.
use ren_general.Base.{
  ℕ, ◌≡◌, refl, ◌∙◌, true, false, none, some, List, [], ◌∷◌, arith, if◌then◌else◌,
}
use ren_general.StateMachine.{
  Pointer, Machine, is_null, ptr_eq, set_state, end, is_done, requests, change, update,
}

-- What the next state is after a list of requests: the last one that does not name the running
-- state.
unfoldable pub target : Pointer → Pointer → List Pointer → Pointer
target current next [] = next
target current next (p ∷ ps) = target current (if ptr_eq p current then next else p) ps

ptr_eq→eq : (p q : Pointer) → ptr_eq p q ≡ true → p ≡ q
ptr_eq→eq none none h = refl
ptr_eq→eq none (some q) h = cc
ptr_eq→eq (some p) none h = cc
ptr_eq→eq (some p) (some q) h = ground arith

set_state_lem :
    (m : Machine) (p : Pointer)
    → ((set_state m p).current ≡ m.current)
      × ((set_state m p).next ≡ (if ptr_eq p m.current then m.next else p))
unfolding set_state
set_state_lem m p = ground (arith, ptr_eq→eq p m.next)

requests_lem :
    (m : Machine) (ps : List Pointer)
    → ((requests m ps).current ≡ m.current) × ((requests m ps).next ≡ target m.current m.next ps)
unfolding requests target
requests_lem m [] = (refl, refl)
requests_lem m (p ∷ ps) =
    let (c, n) = set_state_lem m p in
    let (c', n') = requests_lem (set_state m p) ps in (c' ∙ c, n' ∙ rw (c, n) refl)

change_lem : (m : Machine) → ((change m).current ≡ m.next) × ((change m).next ≡ m.next)
unfolding change
change_lem m = ground (arith, ptr_eq→eq m.next m.current)

-- An update of a machine with a running state makes the last request that does not name the running
-- state, or without one the next state of before, both the running and the next state.
pub update-target :
    (m : Machine) (made : List Pointer)
    → is_null m.current ≡ false
    → ((update m made).current ≡ target m.current m.next made)
      × ((update m made).next ≡ target m.current m.next made)
unfolding update
update-target m made h =
    let (c, n) = requests_lem m made in
    let (c', n') = change_lem (requests m made) in rw h (c' ∙ n, n' ∙ n)

-- Before the first update, End changes nothing: with no running state and a next state `s`, the
-- machine is not done after End, and the update that follows runs `s`.
pub end-ignored :
    (m : Machine) (s : ℕ) (made : List Pointer)
    → m.current ≡ none
    → m.next ≡ some s
    → (is_done (end m) ≡ false) × ((update (end m) made).current ≡ some s)
unfolding end set_state is_done update change
end-ignored m s made c n = ground arith
