-- ===== src/Filesystem/Path/Split.antt =====
-- The pieces of a string between its slashes, and what the constructor's loop makes of them.
use mathlib.Core.Path.{fun_ext}
use Prim.Native.Nat.add
use native.Mathlib.Nat.{zero-add}
use ren_general.Base.{
  String, index_of, ℕ, zero, suc, ◌+◌, ◌-◌, ◌≤◌, ◌<◌, ◌≡◌, refl, sym, ap, ◌∙◌, inl, inr, true,
  Option, none, some, List, [], ◌∷◌, ◌++◌, arith, ◌==◌, if◌then◌else◌, Option-cases, take, drop,
  length,
}
use ren_general.Exception.{Result, ok, ◌>>=◌, >>=_assoc}
use ren_general.Filesystem.Path.{
  slash, PathStringIterator, iterator, find_next, read, add_part, parse_loop, new, path,
  is_absolute,
}

-- Puts a byte in front of the first piece.
abbrev pub cons_head : ℕ → List String → List String
cons_head x [] = (x ∷ []) ∷ []
cons_head x (w ∷ ws) = (x ∷ w) ∷ ws

unfoldable pub split : String → List String
split [] = [] ∷ []
split (x ∷ xs) = if x == slash then [] ∷ split xs else cons_head x (split xs)

-- The loop's body over a list of pieces.
unfoldable pub resolve : List String → List String → Result (List String)
resolve parts [] = ok parts
resolve parts (w ∷ ws) = add_part parts w >>= λ parts'. resolve parts' ws

pub resolve-append :
    (parts ws vs : List String)
    → resolve parts (ws ++ vs) ≡ (resolve parts ws >>= λ parts'. resolve parts' vs)
unfolding resolve
resolve-append parts [] vs = refl
resolve-append parts (w ∷ ws) vs =
    ap (λ k. add_part parts w >>= k) (fun_ext λ q. resolve-append q ws vs)
    ∙ sym (>>=_assoc (add_part parts w) (λ q. resolve q ws) (λ q. resolve q vs))

-- No slash: one piece. Otherwise the first piece ends at the first slash.
split-none : (u : String) → index_of slash u ≡ none → split u ≡ u ∷ []
unfolding split
split-none [] h = refl
split-none (x ∷ xs) h = ground (arith, split-none xs)

split-some :
    (u : String) (k : ℕ)
    → index_of slash u ≡ some k
    → (split u ≡ take k u ∷ split (drop (suc k) u)) × (k < length u)
unfolding split
split-some [] k h = cc
split-some (x ∷ xs) zero h = ground arith
split-some (x ∷ xs) (suc k) h = ground (arith, split-some xs k)

drop_nil : (k : ℕ) → drop {A = ℕ} k [] ≡ []
drop_nil zero = refl
drop_nil (suc k) = refl

drop-drop : (m k : ℕ) (s : String) → drop (m + k) s ≡ drop k (drop m s)
drop-drop zero k s = rw zero-add
drop-drop (suc m) k [] = rw add.suc (sym (drop_nil k))
drop-drop (suc m) k (x ∷ xs) = rw add.suc (drop-drop m k xs)

length-drop-le : (k : ℕ) (s : String) → k < length s → length (drop (suc k) s) < length s
length-drop-le k [] h = absurd (omega arith)
length-drop-le zero (x ∷ xs) h = omega arith
length-drop-le (suc k) (x ∷ xs) h = omega (arith, length-drop-le k xs (omega arith))

take_test : (k : ℕ) (u : String) → (if k == 0 then [] else take k u) ≡ take k u
take_test zero u = refl
take_test (suc k) u = ground arith

abbrev at : String → ℕ → Option ℕ → PathStringIterator
at s p m = record { path_string = s; previous_marker = p; marker = m }

module _ (f p m : ℕ) (s : String) (parts : List String) where
  parse_loop_last :
      index_of slash (drop m s) ≡ none
      → parse_loop (suc (suc f)) (at s p (some m)) parts
        ≡ (add_part parts (drop m s) >>= λ parts'. ok parts')
  unfolding parse_loop find_next read
  parse_loop_last e = rw e refl

  parse_loop_piece :
      (k : ℕ)
      → index_of slash (drop m s) ≡ some k
      → parse_loop (suc f) (at s p (some m)) parts ≡ (
          add_part parts (take k (drop m s)) >>= λ parts'.
          parse_loop f (at s m (some (m + suc k))) parts')
  unfolding parse_loop find_next read
  parse_loop_piece k e =
      let ends : m + k + 1 ≡ m + suc k = omega arith in
      let size : m + suc k - 1 - m ≡ k = omega arith in
      rw (e, ends, size, take_test k (drop m s)) refl

parse_loop-resolve :
    (f p m : ℕ) (s : String) (parts : List String)
    → length (drop m s) + 2 ≤ f
    → parse_loop f (at s p (some m)) parts ≡ resolve parts (split (drop m s))
unfolding resolve
parse_loop-resolve zero p m s parts h = absurd (omega arith)
parse_loop-resolve (suc zero) p m s parts h = absurd (omega arith)
parse_loop-resolve (suc (suc f)) p m s parts h = elim (Option-cases (index_of slash (drop m s))) [
  | inl e ↦ rw (parse_loop_last f p m s parts e, split-none (drop m s) e) refl
  | inr (k, e) ↦
      let (pieces, less) = split-some (drop m s) k e in
      let rest = length-drop-le k (drop m s) less in
      rw (parse_loop_piece (suc f) p m s parts k e, pieces)
        (ap (λ g. add_part parts (take k (drop m s)) >>= g)
          (fun_ext λ q. rw (← drop-drop m (suc k) s) (
            parse_loop-resolve (suc f) m (m + suc k) s q
              (rw (drop-drop m (suc k) s) (omega (arith, rest))))))
]

-- The constructor reads the pieces between the slashes, in order, until the last.
pub new-resolve :
    (s : String)
    → is_absolute s ≡ true
    → new s ≡ (resolve [] (split s) >>= λ parts. ok (path parts))
unfolding new is_absolute iterator
new-resolve [] h = cc
new-resolve (c ∷ cs) h =
    rw (h, new)
      (ap (λ r. r >>= λ parts. ok (path parts))
        (parse_loop-resolve (length (c ∷ cs) + 2) 0 0 (c ∷ cs) [] (omega arith)))
