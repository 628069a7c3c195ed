-- ===== src/Singleton/Tests.antt =====
-- The theorem at a singleton that was started, stopped and started.
use ren_general.Base.{ℕ, ◌≡◌, List, [], ◌∷◌}
use ren_general.Exception.{ok, abort}
use ren_general.Singleton.{initial, start, stop, get, delete_instance}
use ren_general.Singleton.Instances.{Call, starts, stops, run, numbers_below, run-instances}

abbrev calls : List Call
calls = starts ∷ starts ∷ stops ∷ stops ∷ starts ∷ []

run-instances_example :
    (delete_instance (run initial calls).deleted (run initial calls).instance_number
      ≡ numbers_below (run initial calls).made)
    × ((i : ℕ) × (get (start (run initial calls)) ≡ ok i)
        × (get (start (start (run initial calls))) ≡ ok i))
    × (get (stop (run initial calls)) ≡ abort)
run-instances_example = run-instances calls
