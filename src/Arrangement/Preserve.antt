-- ===== src/Arrangement/Preserve.antt =====
-- Every operation of the mapper keeps the invariant.
use ren_general.Base.{
  ℕ, ◌+◌, ◌≤◌, ◌≡◌, refl, inl, inr, true, false, not, Option, none, some, List, [], ◌∷◌, arith,
  ◌==◌, if◌then◌else◌, Bool-cases, contains, push_back, count, count-append,
}
use ren_general.Exception.{Result, ok, ◌>>=◌, IfOk, IfOk-assert}
use ren_general.Arrangement.{
  Mapping, ManyToOneMapper, erase, has_b_in, find_b, set_b, erase_b, add_a, add_b, remove_a,
  remove_b, clear_all, disconnect_all, found, connect, disconnect,
}
use ren_general.Arrangement.Invariant.{
  keys, Within, AllWithin, IsValid, contains-count, contains-count_pos, count-erase-le,
  erase_everywhere, remove_from_mappings_lem, keys-erase_everywhere, Within-erase,
}

keys-push_back :
    (ms : List Mapping) (b x : ℕ)
    → count x (keys (push_back ms (b, []))) ≡ count x (keys ms) + (if b == x then 1 else 0)
keys-push_back [] b x = omega arith
keys-push_back ((k, l) ∷ ms) b x = omega (arith, keys-push_back ms b x)

absent-keys : (b : ℕ) (ms : List Mapping) → has_b_in b ms ≡ false → count b (keys ms) ≡ 0
absent-keys b [] h = refl
absent-keys b ((k, l) ∷ ms) h = ground (arith, absent-keys b ms)

keys-set_b : (b : ℕ) (l : List ℕ) (ms : List Mapping) → keys (set_b b l ms) ≡ keys ms
keys-set_b b l [] = refl
keys-set_b b l ((k, l') ∷ ms) = ground (arith, keys-set_b b l ms)

keys-erase_b-le : (b x : ℕ) (ms : List Mapping) → count x (keys (erase_b b ms)) ≤ count x (keys ms)
keys-erase_b-le b x [] = omega arith
keys-erase_b-le b x ((k, l) ∷ ms) = ground (arith, keys-erase_b-le b x ms)

keys-clear_all : (ms : List Mapping) → keys (clear_all ms) ≡ keys ms
keys-clear_all [] = refl
keys-clear_all ((k, l) ∷ ms) = ground (arith, keys-clear_all ms)

module _ (known : List ℕ) where
  AllWithin-mono :
      (ms : List Mapping) (known' : List ℕ)
      → AllWithin ms known
      → ((x : ℕ) → count x known ≤ count x known')
      → AllWithin ms known'
  AllWithin-mono [] k w h = tt
  AllWithin-mono ((b, l) ∷ ms) k w h = (λ x. omega (arith, w.0 x, h x), AllWithin-mono ms k w.1 h)

  AllWithin-push_back :
      (ms : List Mapping) (b : ℕ) → AllWithin ms known → AllWithin (push_back ms (b, [])) known
  AllWithin-push_back [] b w = (λ x. omega arith, tt)
  AllWithin-push_back ((k, l) ∷ ms) b w = (w.0, AllWithin-push_back ms b w.1)

  AllWithin-erase_b :
      (ms : List Mapping) (b : ℕ) → AllWithin ms known → AllWithin (erase_b b ms) known
  AllWithin-erase_b [] b w = tt
  AllWithin-erase_b ((k, l) ∷ ms) b w = elim (Bool-cases (k == b)) [
    | inl e ↦ rw e w.1
    | inr e ↦ rw e (w.0, AllWithin-erase_b ms b w.1)
  ]

  AllWithin-set_b :
      (ms : List Mapping) (b : ℕ) (l : List ℕ)
      → AllWithin ms known
      → Within l known
      → AllWithin (set_b b l ms) known
  AllWithin-set_b [] b l w h = tt
  AllWithin-set_b ((k, l') ∷ ms) b l w h = elim (Bool-cases (k == b)) [
    | inl e ↦ rw e (h, w.1)
    | inr e ↦ rw e (w.0, AllWithin-set_b ms b l w.1 h)
  ]

  AllWithin-clear_all : (ms : List Mapping) → AllWithin (clear_all ms) known
  AllWithin-clear_all [] = tt
  AllWithin-clear_all ((k, l) ∷ ms) = (λ x. omega arith, AllWithin-clear_all ms)

  AllWithin-erase_everywhere :
      (ms : List Mapping) (a : ℕ)
      → contains a known ≡ true
      → count a known ≤ 1
      → AllWithin ms known
      → AllWithin (erase_everywhere a ms) (erase a known)
  AllWithin-erase_everywhere [] a h one w = tt
  AllWithin-erase_everywhere ((k, l) ∷ ms) a h one w =
      (Within-erase a l known h one w.0, AllWithin-erase_everywhere ms a h one w.1)

  find_b-Within :
      (ms : List Mapping) (b : ℕ) (l : List ℕ)
      → AllWithin ms known
      → find_b b ms ≡ some l
      → Within l known
  find_b-Within [] b l w h x = cc
  find_b-Within ((k, l') ∷ ms) b l w h x = elim (Bool-cases (k == b)) [
    | inl e ↦ ground (arith, w.0 x)
    | inr e ↦ find_b-Within ms b l w.1 (rw e at h) x
  ]

pub data Call : Type 0 where
  adds_a adds_b removes_a removes_b : ℕ → Call
  disconnects_all : Call
  connects disconnects : ℕ → ℕ → Call

abbrev pub apply : ManyToOneMapper → Call → Result ManyToOneMapper
apply m (adds_a a) = add_a m a
apply m (adds_b b) = add_b m b
apply m (removes_a a) = remove_a m a
apply m (removes_b b) = remove_b m b
apply m disconnects_all = ok (disconnect_all m)
apply m (connects a b) = connect m a b
apply m (disconnects a b) = disconnect m a b

add_a-IsValid : (m : ManyToOneMapper) (a : ℕ) → IsValid m → IfOk IsValid (add_a m a)
unfolding add_a
add_a-IsValid m a v = elim (Bool-cases (contains a m.a)) [
  | inl e ↦ rw e tt
  | inr e ↦ rw e (record {
    a_once = λ x. ground (arith, count-append m.a (a ∷ []) x, v.a_once x, contains-count a m.a e);
    b_once = v.b_once;
    within =
        AllWithin-mono m.a m.mappings (push_back m.a a) v.within
          (λ x. omega (arith, count-append m.a (a ∷ []) x));
  })
]

add_b-IsValid : (m : ManyToOneMapper) (b : ℕ) → IsValid m → IfOk IsValid (add_b m b)
unfolding add_b
add_b-IsValid m b v = elim (Bool-cases (has_b_in b m.mappings)) [
  | inl e ↦ rw e tt
  | inr e ↦ rw e (record {
    a_once = v.a_once;
    b_once =
        λ x. ground (arith, keys-push_back m.mappings b x, v.b_once x, absent-keys b m.mappings e);
    within = AllWithin-push_back m.a m.mappings b v.within;
  })
]

remove_a-IsValid : (m : ManyToOneMapper) (a : ℕ) → IsValid m → IfOk IsValid (remove_a m a)
unfolding remove_a
remove_a-IsValid m a v = elim (Bool-cases (contains a m.a)) [
  | inr e ↦ rw e tt
  | inl e ↦
      rw (e, remove_from_mappings_lem a m.mappings m.a v.within (v.a_once a))
        (record {
          a_once = λ x. omega (arith, count-erase-le x a m.a, v.a_once x);
          b_once = λ x. rw (keys-erase_everywhere a m.mappings) (v.b_once x);
          within = AllWithin-erase_everywhere m.a m.mappings a e (v.a_once a) v.within;
        })
]

remove_b-IsValid : (m : ManyToOneMapper) (b : ℕ) → IsValid m → IfOk IsValid (remove_b m b)
unfolding remove_b
remove_b-IsValid m b v = elim (Bool-cases (has_b_in b m.mappings)) [
  | inr e ↦ rw e tt
  | inl e ↦ rw e (record {
    a_once = v.a_once;
    b_once = λ x. omega (arith, keys-erase_b-le b x m.mappings, v.b_once x);
    within = AllWithin-erase_b m.a m.mappings b v.within;
  })
]

-- A mapping changed to a list of known As.
set_b-IsValid :
    (m : ManyToOneMapper) (b : ℕ) (l : List ℕ)
    → IsValid m
    → Within l m.a
    → IsValid (record m { mappings = set_b b l m.mappings })
set_b-IsValid m b l v w = record {
  a_once = v.a_once;
  b_once = λ x. rw (keys-set_b b l m.mappings) (v.b_once x);
  within = AllWithin-set_b m.a m.mappings b l v.within w;
}

IfOk-found :
    {A B : Type 0} (Q : B → Type 0) (o : Option A) (f : A → Result B)
    → ((x : A) → o ≡ some x → IfOk Q (f x))
    → IfOk Q (found o >>= f)
IfOk-found Q none f h = tt
IfOk-found Q (some x) f h = h x refl

connect-IsValid : (m : ManyToOneMapper) (a b : ℕ) → IsValid m → IfOk IsValid (connect m a b)
unfolding connect
connect-IsValid m a b v = IfOk-assert IsValid (contains a m.a) _ λ known.
    IfOk-assert IsValid (has_b_in b m.mappings) _ λ _.
      IfOk-found IsValid (find_b b m.mappings) _ λ l e.
        IfOk-assert IsValid (not (contains a l)) _ λ fresh. set_b-IsValid m b (push_back l a) v λ x.
          ground (
            arith,
            count-append l (a ∷ []) x,
            find_b-Within m.a m.mappings b l v.within e x,
            contains-count a l,
            contains-count_pos a m.a known,
          )

disconnect-IsValid : (m : ManyToOneMapper) (a b : ℕ) → IsValid m → IfOk IsValid (disconnect m a b)
unfolding disconnect
disconnect-IsValid m a b v = IfOk-assert IsValid (contains a m.a) _ λ known.
    IfOk-assert IsValid (has_b_in b m.mappings) _ λ _.
      IfOk-found IsValid (find_b b m.mappings) _ λ l e. IfOk-assert IsValid (contains a l) _ λ _.
        set_b-IsValid m b (erase a l) v
          λ x. omega (arith, count-erase-le x a l, find_b-Within m.a m.mappings b l v.within e x)

disconnect_all-IsValid : (m : ManyToOneMapper) → IsValid m → IsValid (disconnect_all m)
unfolding disconnect_all
disconnect_all-IsValid m v = record {
  a_once = v.a_once;
  b_once = λ x. rw (keys-clear_all m.mappings) (v.b_once x);
  within = AllWithin-clear_all m.a m.mappings;
}

-- Every operation on a valid mapper that returns keeps the invariant: no A twice, no B twice, and
-- in each mapping known As, each at most once.
pub apply-IsValid : (m : ManyToOneMapper) (c : Call) → IsValid m → IfOk IsValid (apply m c)
apply-IsValid m (adds_a a) v = add_a-IsValid m a v
apply-IsValid m (adds_b b) v = add_b-IsValid m b v
apply-IsValid m (removes_a a) v = remove_a-IsValid m a v
apply-IsValid m (removes_b b) v = remove_b-IsValid m b v
apply-IsValid m disconnects_all v = disconnect_all-IsValid m v
apply-IsValid m (connects a b) v = connect-IsValid m a b v
apply-IsValid m (disconnects a b) v = disconnect-IsValid m a b v
