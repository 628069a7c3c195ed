-- ===== src/Singleton/Instances.antt =====
-- The instances that were made are the present one and those that were deleted.
use ren_general.Base.{
  ℕ, zero, suc, ◌≡◌, refl, ap, ◌∙◌, inl, inr, Option, none, some, List, [], ◌∷◌, Option-cases,
}
use ren_general.Exception.{ok, abort}
use ren_general.Singleton.{Singleton, initial, start, start_from, stop, get, delete_instance}

pub data Call : Type 0 where
  starts stops : Call

unfoldable pub act : Singleton → Call → Singleton
act s starts = start s
act s stops = stop s

unfoldable pub run : Singleton → List Call → Singleton
run s [] = s
run s (c ∷ cs) = run (act s c) cs

-- The numbers below one, from the last.
abbrev pub numbers_below : ℕ → List ℕ
numbers_below zero = []
numbers_below (suc n) = n ∷ numbers_below n

-- Each number given is that of the instance or of one that was deleted, once.
abbrev pub IsAccounted : Singleton → Type 0
IsAccounted s = delete_instance s.deleted s.instance_number ≡ numbers_below s.made

start_from-IsAccounted :
    (s : Singleton) (o : Option ℕ)
    → delete_instance s.deleted o ≡ numbers_below s.made
    → IsAccounted s
    → IsAccounted (start_from s o)
start_from-IsAccounted s none e h = ap (◌∷◌ s.made) e
start_from-IsAccounted s (some i) e h = h

start-IsAccounted : (s : Singleton) → IsAccounted s → IsAccounted (start s)
unfolding start
start-IsAccounted s h = start_from-IsAccounted s s.instance_number h h

act-IsAccounted : (s : Singleton) (c : Call) → IsAccounted s → IsAccounted (act s c)
unfolding act stop
act-IsAccounted s starts h = start-IsAccounted s h
act-IsAccounted s stops h = h

run-IsAccounted : (s : Singleton) (cs : List Call) → IsAccounted s → IsAccounted (run s cs)
unfolding run
run-IsAccounted s [] h = h
run-IsAccounted s (c ∷ cs) h = run-IsAccounted (act s c) cs (act-IsAccounted s c h)

start-kept : (s : Singleton) (i : ℕ) → s.instance_number ≡ some i → start s ≡ s
unfolding start
start-kept s i e = rw e refl

get-some : (s : Singleton) (i : ℕ) → s.instance_number ≡ some i → get s ≡ ok i
unfolding get
get-some s i e = rw e refl

start-some : (s : Singleton) → (i : ℕ) × ((start s).instance_number ≡ some i)
unfolding start
start-some s = elim (Option-cases s.instance_number) [
  | inl e ↦ (s.made, rw e refl)
  | inr (i, e) ↦ (i, ap (λ t. t.instance_number) (start-kept s i e) ∙ e)
]

get-start : (s : Singleton) → (i : ℕ) × (get (start s) ≡ ok i) × (get (start (start s)) ≡ ok i)
get-start s =
    let (i, e) = start-some s in
    let here = get-some (start s) i e in (i, here, ap get (start-kept (start s) i e) ∙ here)

-- After any calls, all instances ever made, but for the present one, were deleted, each once and in
-- the order in which they were made; after Start there is one, which Start again keeps and Get
-- gives, and after Stop there is none, and Get fails its assertion.
pub run-instances :
    (cs : List Call)
    → (delete_instance (run initial cs).deleted (run initial cs).instance_number
        ≡ numbers_below (run initial cs).made)
      × ((i : ℕ) × (get (start (run initial cs)) ≡ ok i)
          × (get (start (start (run initial cs))) ≡ ok i))
      × (get (stop (run initial cs)) ≡ abort)
unfolding initial stop get
run-instances cs = (run-IsAccounted initial cs refl, get-start (run initial cs), refl)
