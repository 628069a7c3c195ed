-- ===== src/Lifetime/Cleaner/Tests.antt =====
-- The theorems at a cleaner in use.
use ren_general.Base.{ℕ, ◌≡◌, false, List, [], ◌∷◌, count}
use ren_general.Exception.{ok}
use ren_general.Lifetime.Cleaner.{new, destruct}
use ren_general.Lifetime.Cleaner.Ownership.{
  Call, adds, destroys, purges, updates, run, handed_over, run-destruct,
}

abbrev calls : List Call
calls = adds 1 ∷ adds 2 ∷ destroys 1 ∷ updates ∷ adds 3 ∷ destroys 2 ∷ purges ∷ []

run-destruct_example :
    (freed : List ℕ) × (destruct (run (new false) calls) ≡ ok freed)
    × (count 2 freed ≡ count 2 (handed_over calls))
run-destruct_example = run-destruct 2 calls
