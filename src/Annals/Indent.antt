-- ===== src/Annals/Indent.antt =====
-- The loop that indents the extra text.
use Prim.Native.Nat.add
use native.Mathlib.Nat.{zero-add}
use mathlib.Core.Option
use ren_general.Base.{
  String, ℕ, zero, suc, ◌+◌, ◌<◌, ◌≤◌, ◌≡◌, refl, sym, ap, ◌∙◌, inl, inr, none, some, [], ◌∷◌, ◌++◌,
  append_assoc, arith, ◌==◌, if◌then◌else◌, length, length-append, take, drop, count, index_of,
  find, insert, Option-cases,
}
use ren_general.Exception.{ok}
use ren_general.Annals.{newline, tab, indent_loop}

-- A tab behind every newline.
unfoldable pub indent : String → String
indent [] = []
indent (c ∷ cs) = if c == newline then c ∷ tab ∷ indent cs else c ∷ indent cs

-- The first character is not looked at.
unfoldable pub indent_rest : String → String
unfolding indent
indent_rest [] = []
indent_rest (c ∷ cs) = c ∷ indent cs

indent-none : (s : String) → index_of newline s ≡ none → indent s ≡ s
unfolding indent
indent-none [] h = refl
indent-none (c ∷ cs) h = ground (arith, indent-none cs)

indent-some :
    (s : String) (k : ℕ)
    → index_of newline s ≡ some k
    → (indent s ≡ take (suc k) s ++ tab ∷ indent (drop (suc k) s))
      × (count newline s ≡ suc (count newline (drop (suc k) s)))
      × (length (take (suc k) s) ≡ suc k)
unfolding indent
indent-some [] k h = cc
indent-some (c ∷ cs) zero h = ground arith
indent-some (c ∷ cs) (suc k) h = ground (arith, indent-some cs k)

count-le-length : (c : ℕ) (s : String) → count c s ≤ length s
count-le-length c [] = omega arith
count-le-length c (x ∷ xs) = ground (arith, count-le-length c xs)

drop-append : (p s : String) (k : ℕ) → drop (length p + k) (p ++ s) ≡ drop k s
drop-append [] s k = rw zero-add refl
drop-append (c ∷ cs) s k = rw add.suc (drop-append cs s k)

take-append : (p s : String) (k : ℕ) → take (length p + k) (p ++ s) ≡ p ++ take k s
take-append [] s k = rw zero-add refl
take-append (c ∷ cs) s k = rw add.suc (ap (λ l. c ∷ l) (take-append cs s k))

drop-length : (p s : String) → drop (length p) (p ++ s) ≡ s
drop-length [] s = refl
drop-length (c ∷ cs) s = drop-length cs s

find-append :
    (p s : String) (last_find : ℕ)
    → last_find + 1 ≡ length p
    → find newline (p ++ s) (last_find + 1) ≡ Option.map (λ k. length p + k) (index_of newline s)
find-append p s last e = rw (e, drop-length p s) refl

last_turn :
    (fuel : ℕ) (s : String) (last_find : ℕ)
    → find newline s (last_find + 1) ≡ none
    → indent_loop (suc fuel) s last_find ≡ ok s
unfolding indent_loop
last_turn fuel s last e = rw (e, indent_loop) refl

turn :
    (fuel : ℕ) (s : String) (last_find found : ℕ)
    → find newline s (last_find + 1) ≡ some found
    → indent_loop (suc fuel) s last_find ≡ indent_loop fuel (insert s (found + 1) tab) found
unfolding indent_loop
turn fuel s last found e = rw (e, indent_loop) refl

-- Behind the prefix `p` the loop indents what is left, a newline a turn.
indent_loop-append :
    (fuel : ℕ) (p s : String) (last_find : ℕ)
    → last_find + 1 ≡ length p
    → count newline s < fuel
    → indent_loop fuel (p ++ s) last_find ≡ ok (p ++ indent s)
indent_loop-append zero p s last e enough = absurd (omega arith)
indent_loop-append (suc fuel) p s last e enough = elim (Option-cases (index_of newline s)) [
  | inl miss ↦
      last_turn fuel (p ++ s) last (find-append p s last e ∙ ap (Option.map _) miss)
      ∙ ap (λ l. ok (p ++ l)) (sym (indent-none s miss))
  | inr (k, hit) ↦
      let (text, fewer, size) = indent-some s k hit in
      let s' : String = drop (suc k) s in
      let at : length p + k + 1 ≡ length p + suc k = omega arith in
      let ends : length p + k + 1 ≡ length (p ++ take (suc k) s) =
        omega (arith, length-append p (take (suc k) s), size) in
      turn fuel (p ++ s) last (length p + k) (find-append p s last e ∙ ap (Option.map _) hit)
      ∙ ap (λ l. indent_loop fuel l (length p + k))
          (rw (at, take-append p s (suc k), drop-append p s (suc k)) refl)
      ∙ indent_loop-append fuel (p ++ take (suc k) s) (tab ∷ s') (length p + k) ends
          (omega (arith, fewer))
      ∙ rw text (simp append_assoc (unfold indent in refl))
]

-- The loop ends, and puts a tab behind every newline but one that stands first.
pub indent_loop-indent_rest :
    (extra : String) (fuel : ℕ)
    → length extra < fuel
    → indent_loop fuel extra 0 ≡ ok (indent_rest extra)
unfolding indent_rest
indent_loop-indent_rest [] zero h = absurd (omega arith)
indent_loop-indent_rest [] (suc fuel) h = last_turn fuel [] 0 refl
indent_loop-indent_rest (c ∷ cs) fuel h =
    indent_loop-append fuel (c ∷ []) cs 0 refl (omega (arith, count-le-length newline cs))
