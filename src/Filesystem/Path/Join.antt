-- ===== src/Filesystem/Path/Join.antt =====
-- Pieces joined by slashes, as `as_relative_string` writes them, split and resolved again.
use mathlib.Core.List.{foldl}
use ren_general.Base.{
  String, ℕ, ◌≡◌, refl, ap, ◌∙◌, inl, inr, true, false, List, [], ◌∷◌, ◌++◌, map, append-nil,
  append_assoc, arith, ◌==◌, Bool-cases, is_empty, push_back, is_empty-push_back,
  pop_back-push_back, All,
}
use ren_general.Filesystem.Path.{slash, dot_dot, add_part, write_parts, append_part}
use ren_general.Filesystem.Path.Split.{split, cons_head, resolve}
use ren_general.Filesystem.Path.Parse.{NoSlash, split-write_parts}

-- The pieces of the relative text: one `..` for each part left of `from`, then the rest of `p`.
unfoldable pub ups : List String → List String
ups = map (λ _. dot_dot)

join_tail : List String → String
join_tail = write_parts (slash ∷ [])

append_part-false :
    (out : String) (ws : List String)
    → foldl append_part (out, false) ws ≡ (out ++ join_tail ws, false)
unfolding append_part join_tail write_parts
append_part-false out [] = rw append-nil refl
append_part-false out (w ∷ ws) =
    append_part-false ((out ++ slash ∷ []) ++ w) ws ∙ simp append_assoc refl

write_parts-append : (ws vs : List String) → join_tail (ws ++ vs) ≡ join_tail ws ++ join_tail vs
unfolding join_tail write_parts
write_parts-append [] vs = refl
write_parts-append (w ∷ ws) vs = simp (write_parts-append ws vs, append_assoc) refl

unfoldable pub join : List String → String
unfolding join_tail
join [] = []
join (w ∷ ws) = w ++ join_tail ws

pub fold-join :
    (us hs : List String)
    → (foldl append_part (foldl append_part ([], true) us) hs).0 ≡ join (us ++ hs)
unfolding append_part join
fold-join [] [] = refl
fold-join [] (h ∷ hs) = rw (append_part-false h hs) refl
fold-join (u ∷ us) hs =
    rw (append_part-false u us, append_part-false (u ++ join_tail us) hs)
      (simp (write_parts-append us hs, append_assoc) refl)

-- Splitting distributes over a slash.
cons_head-append :
    (x : ℕ) (ws vs : List String)
    → is_empty ws ≡ false
    → cons_head x (ws ++ vs) ≡ cons_head x ws ++ vs
cons_head-append x [] vs h = cc
cons_head-append x (w ∷ ws) vs h = refl

cons_head-nonempty : (x : ℕ) (ws : List String) → is_empty (cons_head x ws) ≡ false
cons_head-nonempty x [] = refl
cons_head-nonempty x (w ∷ ws) = refl

split-nonempty : (s : String) → is_empty (split s) ≡ false
unfolding split
split-nonempty [] = refl
split-nonempty (x ∷ xs) = ground (arith, cons_head-nonempty x (split xs))

pub split-slash : (s t : String) → split (s ++ slash ∷ t) ≡ split s ++ split t
unfolding split
split-slash [] t = refl
split-slash (x ∷ xs) t = elim (Bool-cases (x == slash)) [
  | inl e ↦ rw (e, split-slash xs t) refl
  | inr e ↦ rw (e, split-slash xs t) (cons_head-append x (split xs) (split t) (split-nonempty xs))
]

pub resolve-join :
    (ps ws : List String) → All NoSlash ws → resolve ps (split (join ws)) ≡ resolve ps ws
unfolding join join_tail resolve split add_part
resolve-join ps [] h = refl
resolve-join ps (w ∷ ws) h = ap (resolve ps) (split-write_parts w ws h.0 h.1)

ups_comm : (fr ws : List String) → dot_dot ∷ (ups fr ++ ws) ≡ ups fr ++ dot_dot ∷ ws
unfolding ups
ups_comm [] ws = refl
ups_comm (f ∷ fs) ws = ap (λ l. dot_dot ∷ l) (ups_comm fs ws)

resolve_up :
    (ps : List String) (w : String) (ws : List String)
    → resolve (push_back ps w) (dot_dot ∷ ws) ≡ resolve ps ws
unfolding resolve add_part
resolve_up ps w ws = rw (is_empty-push_back ps w, pop_back-push_back ps w) refl

pub resolve-ups : (ps fr ws : List String) → resolve (ps ++ fr) (ups fr ++ ws) ≡ resolve ps ws
unfolding ups
resolve-ups ps [] ws = rw append-nil refl
resolve-ups ps (f ∷ fs) ws =
    rw (ups_comm fs ws, ← append_assoc ps (f ∷ []) fs)
      (resolve-ups (push_back ps f) fs (dot_dot ∷ ws) ∙ resolve_up ps f ws)
