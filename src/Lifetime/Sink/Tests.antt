-- ===== src/Lifetime/Sink/Tests.antt =====
-- The theorems at a manager of three wrappers of two items.
use ren_general.Base.{◌≡◌, refl, true, false, [], ◌∷◌, arith, All}
use ren_general.Exception.{ok}
use ren_general.Lifetime.Sink.{Store, destroy_manager}
use ren_general.Lifetime.Sink.Safety.{IsValid, destroys, act, act-IsValid}
use ren_general.Lifetime.Sink.Destroy.{destroy_manager_lem}

abbrev sample : Store
sample = record {
  items = (10, 0 ∷ 2 ∷ []) ∷ (30, 3 ∷ []) ∷ [];
  wrappers =
      record { id = 0; target = 10; expired = false }
      ∷ record { id = 1; target = 20; expired = true }
      ∷ record { id = 2; target = 10; expired = false }
      ∷ record { id = 3; target = 30; expired = false }
      ∷ [];
  next = 4;
}

sample-IsValid : IsValid sample
sample-IsValid = record {
  rises = (omega arith, (omega arith, (omega arith, (omega arith, tt))));
  bounded = (omega arith, (omega arith, (omega arith, (omega arith, tt))));
  signalled = (refl, (refl, tt));
  targets = (λ e. refl, (λ e. absurd cc, (λ e. refl, (λ e. refl, tt))));
  once = (refl, (refl, tt));
}

act-IsValid_example : (s' : Store) × (act sample (destroys 10) ≡ ok s') × IsValid s'
act-IsValid_example = act-IsValid sample (destroys 10) refl sample-IsValid

destroy_manager_lem_example :
    (s' : Store) × (destroy_manager sample ≡ ok s') × All (λ item. item.1 ≡ []) s'.items
destroy_manager_lem_example = destroy_manager_lem sample sample-IsValid
