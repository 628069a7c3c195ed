-- ===== src/StateMachine.antt =====
-- statemachine.cxx: State::Machine, which owns the state that runs and the one that comes next.
-- A pointer is an address or none (NULL). `delete` appends the address to a log, so that what is
-- freed, and how often, can be counted. What the running state's Update asks of the machine is an
-- argument: the list of its SetState calls, in order, `none` for End.
pub mod Ownership
pub mod Transition
pub mod Tests
use ren_general.Base.{
  ℕ, Bool, true, false, not, ◌&&◌, ◌||◌, Option, none, some, List, [], ◌∷◌, ◌++◌, ◌==◌,
  if◌then◌else◌,
}

abbrev pub Pointer : Type 0
Pointer = Option ℕ

abbrev pub ptr_eq : Pointer → Pointer → Bool
ptr_eq none none = true
ptr_eq none (some q) = false
ptr_eq (some p) none = false
ptr_eq (some p) (some q) = p == q

abbrev pub is_null : Pointer → Bool
is_null none = true
is_null (some p) = false

pub record Machine : Type 0 where
  pub current : Pointer
  pub next : Pointer
  pub deleted : List ℕ

-- `delete` of a null pointer does nothing.
abbrev pub delete : Pointer → Machine → Machine
delete none m = m
delete (some p) m = record m { deleted = p ∷ m.deleted }

unfoldable pub new : Machine
new = record { current = none; next = none; deleted = [] }

-- The destructor.
unfoldable pub destroy : Machine → Machine
destroy m =
    let m' = delete m.current m in
    if not (ptr_eq m.next m.current) && not (is_null m.next) then delete m.next m' else m'

unfoldable pub set_state : Machine → Pointer → Machine
set_state m state =
    if ptr_eq state m.current || ptr_eq state m.next
    then m
    else (let m' =
          if not (is_null m.next) && not (ptr_eq m.next m.current) then delete m.next m else m in
        record m' { next = state })

unfoldable pub end : Machine → Machine
unfolding set_state
end m = set_state m none

unfoldable pub is_done : Machine → Bool
is_done m = is_null m.current && is_null m.next

-- The calls that the running state makes from its own Update.
unfoldable pub requests : Machine → List Pointer → Machine
requests m [] = m
requests m (p ∷ ps) = requests (set_state m p) ps

-- What Machine::Update does once the running state's Update has returned.
unfoldable pub change : Machine → Machine
change m = if ptr_eq m.next m.current then m else record (delete m.current m) { current = m.next }

unfoldable pub update : Machine → List Pointer → Machine
unfolding change
update m made = change (if is_null m.current then m else requests m made)
