-- ===== src/StateMachine/Tests.antt =====
-- The theorems at a machine that runs through three states.
use ren_general.Base.{ℕ, ◌≤◌, ◌≡◌, refl, none, some, List, [], ◌∷◌, arith, count}
use ren_general.StateMachine.{Machine, new, destroy, set_state, requests, change, update}
use ren_general.StateMachine.Ownership.{Call, sets, updates, run, handed_over, run-destroy}

abbrev calls : List Call
calls = sets 1 ∷ updates [] ∷ updates (some 2 ∷ none ∷ some 3 ∷ []) ∷ sets 4 ∷ []

calls-fresh : (p : ℕ) → count p (handed_over new calls) ≤ 1
unfolding new handed_over set_state update requests change
calls-fresh p = ground arith

runs : (run new calls).current ≡ some 3
unfolding new run set_state update requests change
runs = refl

run-destroy_example : count 2 (destroy (run new calls)).deleted ≡ count 2 (handed_over new calls)
run-destroy_example = run-destroy calls calls-fresh 2

abbrev pending : Machine
pending = record { current = some 1; next = some 2; deleted = [] }
