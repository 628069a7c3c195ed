-- ===== src/Lifetime/Deleter/Contract.antt =====
-- What the containers of lifetime.h that own their members promise, as an interface: a pointer that
-- is handed over is held, released, or deleted once.
use mathlib.Core.Path.{subst}
use ren_general.Base.{
  ℕ, ◌+◌, ◌≡◌, refl, ap, ◌∙◌, Option, none, some, List, [], ◌∷◌, ◌++◌, count, count-append, arith,
}
use ren_general.Exception.{Result, ok}
use ren_general.Lifetime.Deleter.{IfSome}

-- A container with its calls. `handed` and `released` are the pointers that a call puts under the
-- container's care, and those that it gives up without deleting them.
pub record Container : Type 1 where
  pub State : Type 0
  pub Call : Type 0
  pub start : State
  pub act : State → Call → Option State
  pub held : State → List ℕ
  pub deleted : State → List ℕ
  pub handed : State → Call → List ℕ
  pub released : State → Call → List ℕ
  pub destruct : State → Result (List ℕ)
  pub starts : (p : ℕ) → count p (held start) + count p (deleted start) ≡ 0
  pub conserves :
      (s : State) (c : Call)
      → IfSome
          (λ t.
            (p : ℕ)
            → count p (held t) + count p (deleted t) + count p (released s c)
              ≡ count p (held s) + count p (deleted s) + count p (handed s c))
          (act s c)
  pub destructs :
      (s : State)
      → (freed : List ℕ) × (destruct s ≡ ok freed)
        × ((p : ℕ) → count p freed ≡ count p (held s) + count p (deleted s))

module _ (k : Container) where
  open k use {
    State, Call, start, act, held, deleted, handed, released, destruct, starts, conserves,
    destructs,
  }

  -- A state, with the pointers that were handed over and those that were released so far.
  pub record Ledger : Type 0 where
    pub state : State
    pub into : List ℕ
    pub out : List ℕ

  abbrev pub begin : Ledger
  begin = record { state = start; into = []; out = [] }

  abbrev pub entered : Ledger → Call → State → Ledger
  entered g c t = record {
    state = t;
    into = handed g.state c ++ g.into;
    out = released g.state c ++ g.out;
  }

  abbrev pub enter : Ledger → Call → Option State → Option Ledger
  enter g c none = none
  enter g c (some t) = some (entered g c t)

  abbrev pub run_from : Option Ledger → List Call → Option Ledger
  run_from none cs = none
  run_from (some g) [] = some g
  run_from (some g) (c ∷ cs) = run_from (enter g c (act g.state c)) cs

  abbrev Balanced : Ledger → Type 0
  Balanced g =
      (p : ℕ) → count p (held g.state) + count p (deleted g.state) + count p g.out ≡ count p g.into

  enter-Balanced :
      (g : Ledger) (c : Call) (t : Option State)
      → IfSome
          (λ t.
            (p : ℕ)
            → count p (held t) + count p (deleted t) + count p (released g.state c)
              ≡ count p (held g.state) + count p (deleted g.state) + count p (handed g.state c))
          t
      → Balanced g
      → IfSome Balanced (enter g c t)
  enter-Balanced g c none h b = tt
  enter-Balanced g c (some t) h b = λ p. omega (
    arith,
    h p,
    b p,
    count-append (handed g.state c) g.into p,
    count-append (released g.state c) g.out p,
  )

  run_from-Balanced :
      (g : Option Ledger) (cs : List Call) → IfSome Balanced g → IfSome Balanced (run_from g cs)
  run_from-Balanced none cs b = tt
  run_from-Balanced (some g) [] b = b
  run_from-Balanced (some g) (c ∷ cs) b =
      run_from-Balanced (enter g c (act g.state c)) cs
        (enter-Balanced g c (act g.state c) (conserves g.state c) b)

  abbrev pub run : List Call → Option Ledger
  run cs = run_from (some begin) cs

  module _ (P : State → Type 0) (keeps : (s : State) (c : Call) → P s → IfSome P (act s c)) where
    enter-Keeps :
        (g : Ledger) (c : Call) (t : Option State)
        → IfSome P t
        → IfSome (λ g. P g.state) (enter g c t)
    enter-Keeps g c none h = tt
    enter-Keeps g c (some t) h = h

    run_from-Keeps :
        (g : Option Ledger) (cs : List Call)
        → IfSome (λ g. P g.state) g
        → IfSome (λ g. P g.state) (run_from g cs)
    run_from-Keeps none cs h = tt
    run_from-Keeps (some g) [] h = h
    run_from-Keeps (some g) (c ∷ cs) h =
        run_from-Keeps (enter g c (act g.state c)) cs
          (enter-Keeps g c (act g.state c) (keeps g.state c h))

    -- What each call keeps holds after all.
    pub run-Keeps : (cs : List Call) {g : Ledger} → P start → run cs ≡ some g → P g.state
    run-Keeps cs h e = subst (IfSome λ g. P g.state) e (run_from-Keeps (some begin) cs h)

  -- After calls whose iterators were at elements, the destructor returns, and each pointer was
  -- deleted as often as it was handed over, less the times that it was released.
  pub destruct-run :
      (cs : List Call) {g : Ledger}
      → run cs ≡ some g
      → (freed : List ℕ) × (destruct g.state ≡ ok freed)
        × ((p : ℕ) → count p freed + count p g.out ≡ count p g.into)
  destruct-run cs {g} e =
      let (freed, runs, all) = destructs g.state in
      let b = run_from-Balanced (some begin) cs (λ p. omega (arith, starts p)) in
      (freed, runs, λ p. omega (arith, all p, subst (IfSome Balanced) e b p))

  module _ (total : (s : State) (c : Call) → (t : State) × (act s c ≡ some t))
      (keeps : (s : State) (c : Call) → released s c ≡ []) where
    run_from-total :
        (g : Ledger) (cs : List Call)
        → (h : Ledger) × (run_from (some g) cs ≡ some h) × (h.out ≡ g.out)
    run_from-total g [] = (g, refl, refl)
    run_from-total g (c ∷ cs) =
        let (t, e) = total g.state c in
        let (h, f, out) = run_from-total (entered g c t) cs in
        (h, ap (λ o. run_from (enter g c o) cs) e ∙ f, out ∙ ap (λ l. l ++ g.out) (keeps g.state c))

    -- Where no call can be undefined and none lets a pointer go, the destructor returns after any
    -- calls, and each pointer was deleted as often as it was handed over.
    pub destruct-total :
        (cs : List Call)
        → (g : Ledger) × (run cs ≡ some g)
          × ((freed : List ℕ) × (destruct g.state ≡ ok freed)
              × ((p : ℕ) → count p freed ≡ count p g.into))
    destruct-total cs =
        let (g, e, out) = run_from-total begin cs in
        let (freed, runs, all) = destruct-run cs e in
        (g, e, (freed, runs, λ p. omega (arith, all p, ap (count p) out)))
