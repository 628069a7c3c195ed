-- ===== src/Lifetime/Deleter/Set/Increasing.antt =====
-- The pointers of a DeleterSet stand in increasing order, so that each is there once.
use native.Mathlib.Nat.{lt_trans}
use ren_general.Base.{
  ℕ, zero, suc, ◌+◌, ◌<◌, ◌≤◌, ◌≡◌, refl, Option, none, some, List, [], ◌∷◌, All, arith, inl, inr,
  ltb, ◌==◌, ltb→lt, Bool-cases, count,
}
use ren_general.Lifetime.Deleter.{
  Holder, IfSome, take_at, take_value, with_kept, state, erase_element, erase_found,
  count-delete_all,
}
use ren_general.Lifetime.Deleter.Contract.{run, run-Keeps, Ledger}
use ren_general.Lifetime.Deleter.Set.{
  Call, inserts, erases_at, erases, removes_at, removes, clears, act, clear, erase_at, erase,
  remove_at, remove, insert, remove_element, remove_found, container, destruct,
}

abbrev pub Increasing : List ℕ → Type 0
Increasing [] = Unit
Increasing (p ∷ ps) = All (λ q. p < q) ps × Increasing ps

All-above : {p q : ℕ} (ps : List ℕ) → p < q → All (λ r. q < r) ps → All (λ r. p < r) ps
All-above [] l h = tt
All-above (r ∷ ps) l h = (lt_trans l h.0, All-above ps l h.1)

All-insert : (P : ℕ → Type 0) (v : ℕ) (ps : List ℕ) → P v → All P ps → All P (insert v ps)
unfolding insert
All-insert P v [] hv h = (hv, tt)
All-insert P v (p ∷ ps) hv h = elim (Bool-cases (v == p)) [
  | inl e ↦ rw e h
  | inr e ↦ elim (Bool-cases (ltb v p)) [
    | inl l ↦ rw (e, l) (hv, h)
    | inr l ↦ rw (e, l) (h.0, All-insert P v ps hv h.1)
  ]
]

insert-Increasing : (v : ℕ) (ps : List ℕ) → Increasing ps → Increasing (insert v ps)
unfolding insert
insert-Increasing v [] h = (tt, tt)
insert-Increasing v (p ∷ ps) h = elim (Bool-cases (v == p)) [
  | inl e ↦ rw e h
  | inr e ↦ elim (Bool-cases (ltb v p)) [
    | inl l ↦ rw (e, l) ((ltb→lt v p l, All-above ps (ltb→lt v p l) h.0), h)
    | inr l ↦
        rw (e, l) (All-insert (λ q. p < q) v ps (ground arith) h.0, insert-Increasing v ps h.1)
  ]
]

with_kept-All :
    (P : ℕ → Type 0) (p : ℕ) (o : Option (ℕ × List ℕ))
    → P p
    → IfSome (λ f. All P f.1) o
    → IfSome (λ f. All P f.1) (with_kept p o)
with_kept-All P p none h a = tt
with_kept-All P p (some f) h a = (h, a)

with_kept-Increasing :
    (p : ℕ) (o : Option (ℕ × List ℕ))
    → IfSome (λ f. All (λ q. p < q) f.1) o
    → IfSome (λ f. Increasing f.1) o
    → IfSome (λ f. Increasing f.1) (with_kept p o)
with_kept-Increasing p none a h = tt
with_kept-Increasing p (some f) a h = (a, h)

take_at-All :
    (P : ℕ → Type 0) (i : ℕ) (ps : List ℕ) → All P ps → IfSome (λ f. All P f.1) (take_at i ps)
unfolding take_at
take_at-All P i [] h = tt
take_at-All P zero (p ∷ ps) h = h.1
take_at-All P (suc i) (p ∷ ps) h = with_kept-All P p (take_at i ps) h.0 (take_at-All P i ps h.1)

take_at-Increasing :
    (i : ℕ) (ps : List ℕ) → Increasing ps → IfSome (λ f. Increasing f.1) (take_at i ps)
unfolding take_at
take_at-Increasing i [] h = tt
take_at-Increasing zero (p ∷ ps) h = h.1
take_at-Increasing (suc i) (p ∷ ps) h =
    with_kept-Increasing p (take_at i ps) (take_at-All (λ q. p < q) i ps h.0)
      (take_at-Increasing i ps h.1)

take_value-All :
    (P : ℕ → Type 0) (v : ℕ) (ps : List ℕ) → All P ps → IfSome (λ f. All P f.1) (take_value v ps)
unfolding take_value
take_value-All P v [] h = tt
take_value-All P v (p ∷ ps) h = elim (Bool-cases (p == v)) [
  | inl e ↦ rw e h.1
  | inr e ↦ rw e (with_kept-All P p (take_value v ps) h.0 (take_value-All P v ps h.1))
]

take_value-Increasing :
    (v : ℕ) (ps : List ℕ) → Increasing ps → IfSome (λ f. Increasing f.1) (take_value v ps)
unfolding take_value
take_value-Increasing v [] h = tt
take_value-Increasing v (p ∷ ps) h = elim (Bool-cases (p == v)) [
  | inl e ↦ rw e h.1
  | inr e ↦ rw e (
      with_kept-Increasing p (take_value v ps) (take_value-All (λ q. p < q) v ps h.0)
        (take_value-Increasing v ps h.1))
]

abbrev IsOrdered : Holder → Type 0
IsOrdered s = Increasing s.items

erase_element-IsOrdered :
    (s : Holder) (i : ℕ) (o : Option (ℕ × List ℕ))
    → IfSome (λ f. Increasing f.1) o
    → IfSome IsOrdered (state (erase_element s i o))
      × IfSome IsOrdered (state (remove_element s i o))
erase_element-IsOrdered s i none h = (tt, tt)
erase_element-IsOrdered s i (some f) h = (h, h)

erase_found-IsOrdered :
    (s : Holder) (o : Option (ℕ × List ℕ))
    → IsOrdered s
    → IfSome (λ f. Increasing f.1) o
    → IsOrdered (erase_found s o).0 × IsOrdered (remove_found s o).0
erase_found-IsOrdered s none k h = (k, k)
erase_found-IsOrdered s (some f) k h = (h, h)

act-IsOrdered : (s : Holder) (c : Call) → IsOrdered s → IfSome IsOrdered (act s c)
unfolding act clear erase_at erase remove_at remove
act-IsOrdered s (inserts q) h = insert-Increasing q s.items h
act-IsOrdered s (erases_at i) h =
    (erase_element-IsOrdered s i (take_at i s.items) (take_at-Increasing i s.items h)).0
act-IsOrdered s (erases v) h =
    (erase_found-IsOrdered s (take_value v s.items) h (take_value-Increasing v s.items h)).0
act-IsOrdered s (removes_at i) h =
    (erase_element-IsOrdered s i (take_at i s.items) (take_at-Increasing i s.items h)).1
act-IsOrdered s (removes v) h =
    (erase_found-IsOrdered s (take_value v s.items) h (take_value-Increasing v s.items h)).1
act-IsOrdered s clears h = tt

-- A pointer below all others is not among them.
count-above : (p q : ℕ) (ps : List ℕ) → p ≤ q → All (λ r. q < r) ps → count p ps ≡ 0
count-above p q [] l h = refl
count-above p q (r ∷ ps) l h = ground (arith, h.0, count-above p q ps l h.1)

count-Increasing : (p : ℕ) (ps : List ℕ) → Increasing ps → count p ps ≤ 1
count-Increasing p [] h = omega arith
count-Increasing p (q ∷ ps) h = elim (Bool-cases (q == p)) [
  | inl e ↦ rw e (omega (arith, count-above p q ps (ground arith) h.0))
  | inr e ↦ rw e (omega (arith, count-Increasing p ps h.1))
]

-- After any calls whose iterators were at elements, a pointer is in the set at most once, so that
-- the destructor deletes it at most once more than the calls have.
pub destruct-once :
    (cs : List Call) {g : Ledger container}
    → run container cs ≡ some g
    → (p : ℕ) → count p (destruct g.state) ≤ count p g.state.deleted + 1
unfolding destruct
destruct-once cs {g} e p = omega (
  arith,
  count-Increasing p g.state.items (run-Keeps container IsOrdered act-IsOrdered cs tt e),
  count-delete_all p g.state.items g.state.deleted,
)
