-- ===== src/Club/Leaving.antt =====
-- Which records of a club are active, by the memberships that its members hold, and its destructor.
use mathlib.Core.Path.{subst}
use ren_general.Base.{
  ℕ, ◌≡◌, refl, sym, ap, ◌∙◌, ◌⊎◌, inl, inr, Bool, true, false, ◌||◌, List, [], ◌∷◌, arith, ◌==◌,
  push_back, All, Bool-cases, ==_refl,
}
use ren_general.Exception.{ok}
use ren_general.Club.{
  Record, Club, new, register, leave, die_loop, die, clean_loop, clean, update_loop, update,
  destruct_loop, destruct,
}

-- Whether a membership refers to a record.
abbrev pub refers : ℕ → List (ℕ × ℕ) → Bool
refers a [] = false
refers a ((m, b) ∷ rest) = (b == a) || refers a rest

-- Each active record is referred to, or is one of some others.
abbrev Covered : (others : ℕ → Bool) → List (ℕ × ℕ) → List Record → Type 0
Covered others ms =
    All (λ r. (r.active ≡ false) ⊎ ((others r.address || refers r.address ms) ≡ true))

abbrev nothing : ℕ → Bool
nothing a = false

refers-push_back :
    (a m b : ℕ) (ms : List (ℕ × ℕ)) → refers a (push_back ms (m, b)) ≡ ((b == a) || refers a ms)
refers-push_back a m b [] = refl
refers-push_back a m b ((m', c) ∷ ms) = ground (arith, refers-push_back a m b ms)

register-Covered :
    (m a : ℕ) (ms : List (ℕ × ℕ)) (rs : List Record)
    → Covered nothing ms rs
    → Covered nothing
        (push_back ms (m, a))
        (push_back rs (record { address = a; active = true; member = m }))
register-Covered m a ms [] h = (inr (refers-push_back a m a ms ∙ rw (==_refl a) refl), tt)
register-Covered m a ms (r ∷ rs) (h, hs) = (
  elim h [
    | inl stale ↦ inl stale
    | inr held ↦ inr (refers-push_back r.address m a ms ∙ ground (arith, held))
  ],
  register-Covered m a ms rs hs,
)

-- Without the first membership, once its record was left.
leave-Covered :
    (others : ℕ → Bool) (m a : ℕ) (ms : List (ℕ × ℕ)) (rs : List Record)
    → Covered others ((m, a) ∷ ms) rs
    → Covered others ms (leave a rs)
unfolding leave
leave-Covered others m a ms [] h = tt
leave-Covered others m a ms (r ∷ rs) (h, hs) = elim (Bool-cases (r.address == a)) [
  | inl e ↦ rw e (inl refl, leave-Covered others m a ms rs hs)
  | inr e ↦ rw e (
    elim h [ inl stale ↦ inl stale | inr held ↦ inr (ground (arith, e, held)) ],
    leave-Covered others m a ms rs hs,
  )
]

-- The first membership counted among the others.
shift-Covered :
    (others : ℕ → Bool) (m a : ℕ) (ms : List (ℕ × ℕ)) (rs : List Record)
    → Covered others ((m, a) ∷ ms) rs
    → Covered (λ b. others b || (a == b)) ms rs
shift-Covered others m a ms [] h = tt
shift-Covered others m a ms (r ∷ rs) (h, hs) = (
  elim h [ inl stale ↦ inl stale | inr held ↦ inr (ground (arith, held)) ],
  shift-Covered others m a ms rs hs,
)

unshift-Covered :
    (others : ℕ → Bool) (m a : ℕ) (ms : List (ℕ × ℕ)) (rs : List Record)
    → Covered (λ b. others b || (a == b)) ms rs
    → Covered others ((m, a) ∷ ms) rs
unshift-Covered others m a ms [] h = tt
unshift-Covered others m a ms (r ∷ rs) (h, hs) = (
  elim h [ inl stale ↦ inl stale | inr held ↦ inr (ground (arith, held)) ],
  unshift-Covered others m a ms rs hs,
)

die_loop-Covered :
    (others : ℕ → Bool) (m : ℕ) (ms : List (ℕ × ℕ)) (rs : List Record)
    → Covered others ms rs
    → Covered others (die_loop m ms rs).0 (die_loop m ms rs).1
unfolding die_loop
die_loop-Covered others m [] rs h = h
die_loop-Covered others m ((m', a) ∷ ms) rs h = elim (Bool-cases (m' == m)) [
  | inl e ↦ rw e (die_loop-Covered others m ms (leave a rs) (leave-Covered others m' a ms rs h))
  | inr e ↦ rw e (
      unshift-Covered others m' a (die_loop m ms rs).0 (die_loop m ms rs).1
        (die_loop-Covered (λ b. others b || (a == b)) m ms rs (shift-Covered others m' a ms rs h)))
]

clean_loop-Covered :
    (ms : List (ℕ × ℕ)) (rs : List Record) (deleted : List ℕ)
    → Covered nothing ms rs
    → Covered nothing ms (clean_loop rs deleted).0
unfolding clean_loop
clean_loop-Covered ms [] deleted h = tt
clean_loop-Covered ms (r ∷ rs) deleted (h, hs) = elim (Bool-cases r.active) [
  | inl e ↦ rw e (
    elim h [ inl stale ↦ inl (sym e ∙ stale) | inr held ↦ inr held ],
    clean_loop-Covered ms rs deleted hs,
  )
  | inr e ↦ rw e (clean_loop-Covered ms rs (r.address ∷ deleted) hs)
]

-- Update keeps the records that Clean keeps.
update_loop-clean_loop :
    (rs : List Record) (deleted updated : List ℕ)
    → (update_loop rs deleted updated).0 ≡ (clean_loop rs deleted).0
unfolding update_loop clean_loop
update_loop-clean_loop [] deleted updated = refl
update_loop-clean_loop (r ∷ rs) deleted updated = elim (Bool-cases r.active) [
  | inl e ↦ rw e (
      ap (λ l. record r { active = true } ∷ l)
        (update_loop-clean_loop rs deleted (r.member ∷ updated)))
  | inr e ↦ rw e (update_loop-clean_loop rs (r.address ∷ deleted) updated)
]

pub data Call : Type 0 where
  registers dies : ℕ → Call
  cleans updates : Call

unfoldable pub act : Club → Call → Club
act c (registers m) = register c m
act c (dies m) = die c m
act c cleans = clean c
act c updates = update c

unfoldable pub run : Club → List Call → Club
run c [] = c
run c (e ∷ es) = run (act c e) es

act-Covered :
    (c : Club) (e : Call)
    → Covered nothing c.memberships c.members
    → Covered nothing (act c e).memberships (act c e).members
unfolding act register die clean update
act-Covered c (registers m) h = register-Covered m c.next c.memberships c.members h
act-Covered c (dies m) h = die_loop-Covered nothing m c.memberships c.members h
act-Covered c cleans h = clean_loop-Covered c.memberships c.members c.deleted h
act-Covered c updates h =
    subst (Covered nothing c.memberships)
      (sym (update_loop-clean_loop c.members c.deleted c.updated))
      (clean_loop-Covered c.memberships c.members c.deleted h)

run-Covered :
    (c : Club) (es : List Call)
    → Covered nothing c.memberships c.members
    → Covered nothing (run c es).memberships (run c es).members
unfolding run
run-Covered c [] h = h
run-Covered c (e ∷ es) h = run-Covered (act c e) es (act-Covered c e h)

destruct_loop-stale :
    (rs : List Record) (deleted : List ℕ)
    → Covered nothing [] rs
    → (freed : List ℕ) × (destruct_loop rs deleted ≡ ok freed)
unfolding destruct_loop
destruct_loop-stale [] deleted h = (deleted, refl)
destruct_loop-stale (r ∷ rs) deleted (h, hs) =
    let (freed, runs) = destruct_loop-stale rs (r.address ∷ deleted) hs in
    let stale : r.active ≡ false = elim h [ inl e ↦ e | inr e ↦ ground (arith, e) ] in
    (freed, rw stale runs)

-- A club in which members registered and died and whose records were cleaned or updated, in any
-- order, is destructed without a failed assertion once no member holds a membership of it.
pub destruct-run :
    (es : List Call)
    → (run new es).memberships ≡ []
    → (freed : List ℕ) × (destruct (run new es) ≡ ok freed)
unfolding new destruct
destruct-run es h =
    let c = run new es in
    destruct_loop-stale c.members c.deleted
      (subst (λ ms. Covered nothing ms c.members) h (run-Covered new es tt))
