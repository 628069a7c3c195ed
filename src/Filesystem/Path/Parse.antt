-- ===== src/Filesystem/Path/Parse.antt =====
-- What the constructor yields: normal parts, the error beyond the root, and the inverse of printing.
use ren_general.Base.{
  String, ℕ, ◌≡◌, refl, sym, ap, ◌∙◌, inl, inr, true, false, List, [], ◌∷◌, ◌++◌, append-nil,
  append_assoc, arith, ◌==◌, Bool-cases, is_empty, push_back, All, All-append, All-pop_back,
  contains, str_eq,
}
use ren_general.Exception.{ok, ◌>>=◌, IfOk, IfOk-bind, IfOk-ok}
use ren_general.Filesystem.Path.{
  slash, dot, dot_dot, is_absolute, PathBase, path, add_part, new, write_parts, as_absolute_string,
  absolute_string,
}
use ren_general.Filesystem.Path.Split.{split, cons_head, resolve, new-resolve}

abbrev pub NoSlash : String → Type 0
NoSlash w = contains slash w ≡ false

-- A part as it stands in a path: not empty, not `.` or `..`, and without a slash.
abbrev pub IsName : String → Type 0
IsName w = NoSlash w × (str_eq w [] ≡ false) × (str_eq w dot_dot ≡ false) × (str_eq w dot ≡ false)

abbrev pub IsNormal : List String → Type 0
IsNormal ps = All IsName ps

pub IsNormal-NoSlash : (ps : List String) → IsNormal ps → All NoSlash ps
IsNormal-NoSlash [] n = tt
IsNormal-NoSlash (p ∷ ps) n = (n.0.0, IsNormal-NoSlash ps n.1)

cons_head-NoSlash :
    (x : ℕ) (ws : List String)
    → (x == slash) ≡ false
    → All NoSlash ws
    → All NoSlash (cons_head x ws)
cons_head-NoSlash x [] h all = ground arith
cons_head-NoSlash x (w ∷ ws) h all = (ground arith, all.1)

split-NoSlash : (s : String) → All NoSlash (split s)
unfolding split
split-NoSlash [] = (refl, tt)
split-NoSlash (x ∷ xs) = elim (Bool-cases (x == slash)) [
  | inl e ↦ rw e (refl, split-NoSlash xs)
  | inr e ↦ rw e (cons_head-NoSlash x (split xs) e (split-NoSlash xs))
]

add_part-IsNormal :
    (ps : List String) (w : String) → IsNormal ps → NoSlash w → IfOk IsNormal (add_part ps w)
unfolding add_part
add_part-IsNormal ps w n h = elim (Bool-cases (str_eq w [])) [
  | inl e ↦ rw e n
  | inr e ↦ rw e (elim (Bool-cases (str_eq w dot_dot)) [
    | inl up ↦ rw up (elim (Bool-cases (is_empty ps)) [
      | inl top ↦ rw top tt
      | inr below ↦ rw below (All-pop_back IsName ps n)
    ])
    | inr e' ↦ rw e' (elim (Bool-cases (str_eq w dot)) [
      | inl here ↦ rw here n
      | inr e'' ↦ rw e'' (All-append IsName ps (w ∷ []) n ((h, e, e', e''), tt))
    ])
  ])
]

resolve-IsNormal :
    (ps ws : List String) → IsNormal ps → All NoSlash ws → IfOk IsNormal (resolve ps ws)
unfolding resolve
resolve-IsNormal ps [] n h = n
resolve-IsNormal ps (w ∷ ws) n h =
    IfOk-bind IsNormal IsNormal (add_part ps w) (λ qs. resolve qs ws) (add_part-IsNormal ps w n h.0)
      (λ qs n'. resolve-IsNormal qs ws n' h.1)

new-absolute : (s : String) → is_absolute s ≡ false → (p : PathBase) → new s ≡ ok p → ⊥
unfolding new
new-absolute [] a p e = cc
new-absolute (c ∷ cs) a p e = ground arith

-- Every path that the constructor yields is normal: no part is empty, `.` or `..`, or holds a
-- slash.
pub new-IsNormal : (s : String) (p : PathBase) → new s ≡ ok p → IsNormal p.parts
new-IsNormal s p e = elim (Bool-cases (is_absolute s)) [
  | inl a ↦
      IfOk-ok (λ q. IsNormal q.parts)
        (IfOk-bind IsNormal (λ (q : PathBase). IsNormal q.parts) (resolve [] (split s))
          (λ parts. ok (path parts)) (resolve-IsNormal [] (split s) tt (split-NoSlash s))
          (λ qs n. n))
        (sym (new-resolve s a) ∙ e)
  | inr a ↦ absurd (new-absolute s a p e)
]

-- Pieces that are names are pushed.
pub add_part_name : (ps : List String) (w : String) → IsName w → add_part ps w ≡ ok (push_back ps w)
unfolding add_part
add_part_name ps w h = rw (h.1, h.2, h.3) refl

pub resolve_names : (ps ws : List String) → IsNormal ws → resolve ps ws ≡ ok (ps ++ ws)
unfolding resolve
resolve_names ps [] h = rw append-nil refl
resolve_names ps (w ∷ ws) h =
    rw (add_part_name ps w h.0, resolve_names (push_back ps w) ws h.1) (rw append_assoc refl)

pub split_part : (w : String) → NoSlash w → split w ≡ w ∷ []
unfolding split
split_part [] h = refl
split_part (x ∷ xs) h = ground (arith, split_part xs)

pub split-append : (w s : String) → NoSlash w → split (w ++ slash ∷ s) ≡ w ∷ split s
unfolding split
split-append [] s h = refl
split-append (x ∷ xs) s h = ground (arith, split-append xs s)

pub split-write_parts :
    (w : String) (ps : List String)
    → NoSlash w
    → All NoSlash ps
    → split (w ++ write_parts (slash ∷ []) ps) ≡ w ∷ ps
unfolding write_parts
split-write_parts w [] h n = rw append-nil (split_part w h)
split-write_parts w (p ∷ ps) h n =
    split-append w (p ++ write_parts (slash ∷ []) ps) h
    ∙ ap (λ l. w ∷ l) (split-write_parts p ps n.0 n.1)

-- The printed form splits into an empty piece and the parts; the root has two empty pieces.
pub resolve-printed :
    (ps : List String) → IsNormal ps → resolve [] (split (absolute_string (path ps))) ≡ ok ps
unfolding as_absolute_string resolve add_part split
resolve-printed [] n = refl
resolve-printed (p ∷ ps) n =
    ap (resolve []) (split-write_parts [] (p ∷ ps) refl (IsNormal-NoSlash (p ∷ ps) n))
    ∙ resolve_names [] (p ∷ ps) n

is_absolute-printed : (p : PathBase) → is_absolute (absolute_string p) ≡ true
unfolding as_absolute_string is_absolute
is_absolute-printed p = go p.parts
  where
    go : (ps : List String) → is_absolute (absolute_string (path ps)) ≡ true
    go [] = refl
    go (p ∷ ps) = refl

-- Printing a normal path and constructing a path from the text gives the path back.
pub new-absolute_string : (p : PathBase) → IsNormal p.parts → new (absolute_string p) ≡ ok p
new-absolute_string p n =
    new-resolve (absolute_string p) (is_absolute-printed p)
    ∙ ap (λ r. r >>= λ parts. ok (path parts)) (resolve-printed p.parts n)
