-- ===== src/StateMachine/Ownership.antt =====
-- Who frees the states that a machine is handed.
use ren_general.Base.{
  ℕ, ◌+◌, ◌≤◌, ◌<◌, ◌≡◌, refl, ◌∙◌, inl, inr, Bool-cases, none, some, List, [], ◌∷◌, ◌++◌, arith,
  ◌==◌, if◌then◌else◌, count, count-append,
}
use ren_general.StateMachine.{
  Pointer, Machine, is_null, ptr_eq, new, destroy, set_state, end, requests, change, update,
}

abbrev pub is_at : ℕ → Pointer → ℕ
is_at p none = 0
is_at p (some q) = if q == p then 1 else 0

-- How often the machine holds an address: the running state and, if another, the next one.
abbrev pub held : ℕ → Machine → ℕ
held p m = is_at p m.current + (if ptr_eq m.next m.current then 0 else is_at p m.next)

-- The addresses among the pointers of a list of SetState calls.
abbrev pub addresses : List Pointer → List ℕ
addresses [] = []
addresses (none ∷ ps) = addresses ps
addresses (some p ∷ ps) = p ∷ addresses ps

pub data Call : Type 0 where
  sets : ℕ → Call
  ends : Call
  updates : List Pointer → Call

abbrev pub step : Machine → Call → Machine
step m (sets s) = set_state m (some s)
step m ends = end m
step m (updates made) = update m made

unfoldable pub run : Machine → List Call → Machine
run m [] = m
run m (c ∷ cs) = run (step m c) cs

-- The addresses that a call hands over. With no running state, Update calls nothing.
abbrev pub handed : Machine → Call → List ℕ
handed m (sets s) = s ∷ []
handed m ends = []
handed m (updates made) = if is_null m.current then [] else addresses made

unfoldable pub handed_over : Machine → List Call → List ℕ
handed_over m [] = []
handed_over m (c ∷ cs) = handed m c ++ handed_over (step m c) cs

-- Each address is freed or held as often as `f` says.
abbrev Owns : (ℕ → ℕ) → Machine → Type 0
Owns f m = (p : ℕ) → count p m.deleted + held p m ≡ f p

set_state-Owns :
    (f : ℕ → ℕ) (m : Machine) (s : ℕ)
    → Owns f m
    → f s ≡ 0
    → Owns (λ p. f p + count p (s ∷ [])) (set_state m (some s))
unfolding set_state
set_state-Owns f m s o fresh p = ground (arith, o p, o s)

end-Owns : (f : ℕ → ℕ) (m : Machine) → Owns f m → Owns f (set_state m none)
unfolding set_state
end-Owns f m o p = ground (arith, o p)

change-Owns : (f : ℕ → ℕ) (m : Machine) → Owns f m → Owns f (change m)
unfolding change
change-Owns f m o p = ground (arith, o p)

destroy-Owns : (f : ℕ → ℕ) (m : Machine) → Owns f m → (p : ℕ) → count p (destroy m).deleted ≡ f p
unfolding destroy
destroy-Owns f m o p = ground (arith, o p)

-- No address comes twice.
abbrev Fresh : (ℕ → ℕ) → List ℕ → Type 0
Fresh f l = (p : ℕ) → f p + count p l ≤ 1

Owns-eq : {f g : ℕ → ℕ} (m : Machine) → ((p : ℕ) → f p ≡ g p) → Owns f m → Owns g m
Owns-eq m e o p = o p ∙ e p

Fresh-zero : (f : ℕ → ℕ) (s : ℕ) (l : List ℕ) → Fresh f (s ∷ l) → f s ≡ 0
Fresh-zero f s l d = ground (arith, d s)

requests-Owns :
    (f : ℕ → ℕ) (m : Machine) (ps : List Pointer)
    → Owns f m
    → Fresh f (addresses ps)
    → Owns (λ p. f p + count p (addresses ps)) (requests m ps)
unfolding requests
requests-Owns f m [] o d = Owns-eq m (λ p. omega arith) o
requests-Owns f m (none ∷ ps) o d = requests-Owns f (set_state m none) ps (end-Owns f m o) d
requests-Owns f m (some s ∷ ps) o d =
    Owns-eq (requests (set_state m (some s)) ps) (λ p. omega arith)
      (requests-Owns (λ p. f p + count p (s ∷ [])) (set_state m (some s)) ps
        (set_state-Owns f m s o (Fresh-zero f s (addresses ps) d)) (λ p. omega (arith, d p)))

step-Owns :
    (f : ℕ → ℕ) (m : Machine) (c : Call)
    → Owns f m
    → Fresh f (handed m c)
    → Owns (λ p. f p + count p (handed m c)) (step m c)
unfolding end update
step-Owns f m (sets s) o d = set_state-Owns f m s o (Fresh-zero f s [] d)
step-Owns f m ends o d = Owns-eq (set_state m none) (λ p. omega arith) (end-Owns f m o)
step-Owns f m (updates made) o d = elim (Bool-cases (is_null m.current)) [
  | inl e ↦ rw e (Owns-eq (change m) (λ p. omega arith) (change-Owns f m o))
  | inr e ↦ rw e (
      change-Owns (λ p. f p + count p (addresses made)) (requests m made)
        (requests-Owns f m made o (λ p. rw e at (d p))))
]

run-Owns :
    (f : ℕ → ℕ) (m : Machine) (cs : List Call)
    → Owns f m
    → Fresh f (handed_over m cs)
    → Owns (λ p. f p + count p (handed_over m cs)) (run m cs)
unfolding run handed_over
run-Owns f m [] o d = Owns-eq m (λ p. omega arith) o
run-Owns f m (c ∷ cs) o d =
    let split = λ (p : ℕ). count-append (handed m c) (handed_over (step m c) cs) p in
    Owns-eq (run (step m c) cs) (λ p. omega (arith, split p))
      (run-Owns (λ p. f p + count p (handed m c)) (step m c) cs
        (step-Owns f m c o (λ p. omega (arith, d p, split p))) (λ p. omega (arith, d p, split p)))

new-Owns : Owns (λ p. 0) new
unfolding new
new-Owns p = refl

-- Where no address is handed over twice, a machine that is made, used in any way and destroyed
-- frees exactly the states that it was handed: nothing leaks, and nothing is freed twice.
pub run-destroy :
    (cs : List Call)
    → ((p : ℕ) → count p (handed_over new cs) ≤ 1)
    → (p : ℕ) → count p (destroy (run new cs)).deleted ≡ count p (handed_over new cs)
run-destroy cs d p =
    destroy-Owns (λ q. 0 + count q (handed_over new cs)) (run new cs)
      (run-Owns (λ q. 0) new cs new-Owns (λ q. omega (arith, d q))) p
    ∙ omega arith

-- In the same histories neither the running state nor the next one has been freed.
pub run-held :
    (cs : List Call)
    → ((p : ℕ) → count p (handed_over new cs) ≤ 1)
    → (p : ℕ) → 0 < held p (run new cs)
    → count p (run new cs).deleted ≡ 0
run-held cs d p h =
    omega (arith, run-Owns (λ q. 0) new cs new-Owns (λ q. omega (arith, d q)) p, d p)
