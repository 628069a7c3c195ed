-- ===== src/Lifetime/Sink/Signals.antt =====
-- The signals of an item are the numbers of its live wrappers, in order.
use ren_general.Base.{
  ℕ, suc, ◌<◌, ◌≤◌, ◌≡◌, refl, ◌∙◌, inl, inr, Bool, true, false, not, ◌&&◌, List, [], ◌∷◌, arith,
  ◌==◌, if◌then◌else◌, Bool-cases, ==_refl,
}
use ren_general.Exception.{Result, ok, abort, ◌>>=◌, >>=_assoc}
use ren_general.Lifetime.Sink.{Wrapper, Item, raise, raise_all}

-- The numbers of the wrappers of an item that have not expired.
abbrev pub live : ℕ → List Wrapper → List ℕ
live i [] = []
live i (w ∷ ws) = if not w.expired && (w.target == i) then w.id ∷ live i ws else live i ws

-- The numbers are below a bound and rise along the list.
abbrev pub Rises : ℕ → List Wrapper → Type 0
Rises from [] = Unit {0}
Rises from (w ∷ ws) = (from ≤ w.id) × Rises (suc w.id) ws

abbrev pub Bounded : ℕ → List Wrapper → Type 0
Bounded n [] = Unit {0}
Bounded n (w ∷ ws) = (w.id < n) × Bounded n ws

-- Every item has the signals of its live wrappers.
abbrev pub Signalled : List Wrapper → List Item → Type 0
Signalled ws [] = Unit {0}
Signalled ws ((i, signals) ∷ rest) = (signals ≡ live i ws) × Signalled ws rest

abbrev pub has_item : ℕ → List Item → Bool
has_item i [] = false
has_item i ((j, signals) ∷ rest) = if j == i then true else has_item i rest

-- The target of every wrapper that has not expired lives.
abbrev pub Targets : List Wrapper → List Item → Type 0
Targets [] items = Unit {0}
Targets (w ∷ ws) items = (w.expired ≡ false → has_item w.target items ≡ true) × Targets ws items

-- Each address is that of one item.
abbrev pub Once : List Item → Type 0
Once [] = Unit {0}
Once ((i, signals) ∷ rest) = (has_item i rest ≡ false) × Once rest

-- What the destructor of an item does to the wrappers: those of the item expire.
abbrev pub expire : ℕ → List Wrapper → List Wrapper
expire i [] = []
expire i (w ∷ ws) =
    (if not w.expired && (w.target == i) then record w { expired = true } else w) ∷ expire i ws

pub Rises-mono : (m n : ℕ) (ws : List Wrapper) → m ≤ n → Rises n ws → Rises m ws
Rises-mono m n [] h r = tt
Rises-mono m n (w ∷ ws) h r = (omega arith, r.1)

abbrev AllFrom : ℕ → List ℕ → Type 0
AllFrom n [] = Unit {0}
AllFrom n (s ∷ ss) = (n ≤ s) × AllFrom n ss

AllFrom-mono : (m n : ℕ) (ss : List ℕ) → m ≤ n → AllFrom n ss → AllFrom m ss
AllFrom-mono m n [] h a = tt
AllFrom-mono m n (s ∷ ss) h a = (omega arith, AllFrom-mono m n ss h a.1)

live-AllFrom : (n i : ℕ) (ws : List Wrapper) → Rises n ws → AllFrom n (live i ws)
live-AllFrom n i [] r = tt
live-AllFrom n i (w ∷ ws) r =
    let rest =
      AllFrom-mono n (suc w.id) (live i ws) (omega arith) (live-AllFrom (suc w.id) i ws r.1) in
    elim (Bool-cases (not w.expired && (w.target == i))) [
      | inl e ↦ rw e (r.0, rest)
      | inr e ↦ rw e rest
    ]

pub ==_lt : (a b : ℕ) → a < b → (a == b) ≡ false
==_lt a b h = ground arith

raise_behind :
    (w : Wrapper) (r : Result (List Wrapper)) (f g : List Wrapper → Result (List Wrapper))
    → ((ws : List Wrapper) → g ws ≡ (f ws >>= λ ws'. ok (w ∷ ws')))
    → (r >>= g) ≡ ((r >>= f) >>= λ ws'. ok (w ∷ ws'))
raise_behind w (ok ws) f g h = h ws
raise_behind w (Result.throw e) f g h = refl
raise_behind w abort f g h = refl
raise_behind w Result.out_of_fuel f g h = refl

-- Signals past the first wrapper are raised behind it.
raise_all-cons :
    (w : Wrapper) (ws : List Wrapper) (ss : List ℕ)
    → AllFrom (suc w.id) ss
    → raise_all ss (w ∷ ws) ≡ (raise_all ss ws >>= λ ws'. ok (w ∷ ws'))
unfolding raise_all raise
raise_all-cons w ws [] a = refl
raise_all-cons w ws (s ∷ ss) a =
    rw (==_lt w.id s a.0, >>=_assoc (raise s ws) (λ ws'. ok (w ∷ ws')) (λ ws'. raise_all ss ws'))
      (raise_behind w (raise s ws) (λ ws'. raise_all ss ws') (λ ws'. raise_all ss (w ∷ ws'))
        (λ ws'. raise_all-cons w ws' ss a.1))

-- Raising the signals of the live wrappers of an item makes all its wrappers expire.
pub raise_all-live :
    (n i : ℕ) (ws : List Wrapper) → Rises n ws → raise_all (live i ws) ws ≡ ok (expire i ws)
unfolding raise_all raise
raise_all-live n i [] r = refl
raise_all-live n i (w ∷ ws) r =
    let behind : (v : Wrapper)
        → v.id ≡ w.id
        → raise_all (live i ws) (v ∷ ws) ≡ ok (v ∷ expire i ws) =
      λ v same.
        raise_all-cons v ws (live i ws) (live-AllFrom (suc v.id) i ws (rw same r.1))
        ∙ rw (raise_all-live (suc w.id) i ws r.1) refl in
    elim (Bool-cases (not w.expired && (w.target == i))) [
      | inl e ↦ rw (e, ==_refl w.id) (behind (record w { expired = true }) refl)
      | inr e ↦ rw e (behind w refl)
    ]
