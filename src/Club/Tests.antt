-- ===== src/Club/Tests.antt =====
-- A club with two members that come and go.
use ren_general.Base.{ℕ, ◌≡◌, refl, List, [], ◌∷◌}
use ren_general.Exception.{ok}
use ren_general.Club.{
  new, register, die, die_loop, leave, clean, clean_loop, update, update_loop, destruct,
}
use ren_general.Club.Leaving.{Call, registers, dies, cleans, updates, act, run, destruct-run}

abbrev calls : List Call
calls = registers 1 ∷ registers 2 ∷ dies 1 ∷ updates ∷ registers 3 ∷ dies 2 ∷ cleans ∷ dies 3 ∷ []

run-updated : (run new calls).updated ≡ 2 ∷ []
unfolding new run act register die die_loop leave clean clean_loop update update_loop
run-updated = refl

destruct-run_example : (freed : List ℕ) × (destruct (run new calls) ≡ ok freed)
unfolding new run act register die die_loop leave clean clean_loop update update_loop
destruct-run_example = destruct-run calls refl
