-- ===== src/Filesystem/Path/Relative.antt =====
-- Relative paths resolve back, and the common root is the longest common prefix.
use ren_general.Base.{
  String, ◌≡◌, refl, sym, ap, ◌∙◌, true, false, List, [], ◌∷◌, ◌++◌, append_assoc, arith, All,
  All-append,
}
use ren_general.Exception.{ok, ◌>>=◌}
use ren_general.Filesystem.Path.{
  slash, is_absolute, PathBase, DirectoryPath, path, new, absolute_string, write_parts,
  as_absolute_string, as_relative_string, qualify,
}
use ren_general.Filesystem.Path.Split.{split, resolve, resolve-append, new-resolve}
use ren_general.Filesystem.Path.Parse.{
  NoSlash, IsName, IsNormal, IsNormal-NoSlash, resolve_names, resolve-printed,
}
use ren_general.Filesystem.Path.Common.{common, common_root_loop-common, common_split}
use ren_general.Filesystem.Path.Join.{ups, join, fold-join, split-slash, resolve-join, resolve-ups}

ups-NoSlash : (ws : List String) → All NoSlash (ups ws)
unfolding ups
ups-NoSlash [] = tt
ups-NoSlash (w ∷ ws) = (refl, ups-NoSlash ws)

All-split {ℓ} :
    {A : Type ℓ} (P : A → Type 0) (xs ys : List A) → All P (xs ++ ys) → All P xs × All P ys
All-split P [] ys h = (tt, h)
All-split P (x ∷ xs) ys h = let (a, b) = All-split P xs ys h.1 in ((h.0, a), b)

-- The relative text is the steps up joined with the rest of the path.
as_relative_string-join :
    (p : PathBase) (from : DirectoryPath)
    → as_relative_string p from
      ≡ join (ups (common p.parts from.parts).2 ++ (common p.parts from.parts).1)
unfolding as_relative_string ups
as_relative_string-join p from =
    rw (common_root_loop-common [] p.parts from.parts, as_relative_string)
      (fold-join (ups (common p.parts from.parts).2) (common p.parts from.parts).1)

-- No relative text of a normal path begins with a slash.
join-relative : (us ws : List String) → IsNormal ws → is_absolute (join (ups us ++ ws)) ≡ false
unfolding join ups is_absolute write_parts
join-relative (u ∷ us) ws n = refl
join-relative [] [] n = refl
join-relative [] ([] ∷ ws) n = cc n.0.1
join-relative [] ((c ∷ cs) ∷ ws) n = ground (arith, n.0.0)

absolute-append : (p : PathBase) (s : String) → is_absolute (absolute_string p ++ s) ≡ true
unfolding is_absolute as_absolute_string write_parts
absolute-append p s = go p.parts
  where
    go : (ps : List String) → is_absolute (absolute_string (path ps) ++ s) ≡ true
    go [] = refl
    go (x ∷ xs) = refl

-- The text of a directory, a slash and more text: the pieces of the text are resolved in the
-- directory.
pub new-below :
    (d : DirectoryPath) (s : String)
    → IsNormal d.parts
    → new (absolute_string d ++ slash ∷ s) ≡ (resolve d.parts (split s) >>= λ ps. ok (path ps))
new-below d s n =
    rw (new-resolve _ (absolute-append d (slash ∷ s)), split-slash, resolve-append)
      (ap (λ r. (r >>= λ ps. resolve ps (split s)) >>= λ ps. ok (path ps))
        (resolve-printed d.parts n))

resolve-relative :
    (out fr here : List String)
    → IsNormal here
    → resolve (out ++ fr) (split (join (ups fr ++ here))) ≡ ok (out ++ here)
resolve-relative out fr here m =
    resolve-join (out ++ fr) (ups fr ++ here)
      (All-append NoSlash (ups fr) here (ups-NoSlash fr) (IsNormal-NoSlash here m))
    ∙ (resolve-ups out fr here ∙ resolve_names out here m)

-- Resolving the relative text of a normal path seen from a normal directory, in that directory as
-- the working directory, gives the path back.
pub qualify-as_relative_string :
    (p : PathBase) (from : DirectoryPath)
    → IsNormal p.parts
    → IsNormal from.parts
    → qualify (ok from) (as_relative_string p from) ≡ ok p
unfolding qualify
qualify-as_relative_string p from n m =
    let (here, there) = common_split p.parts from.parts in
    let out : List String = (common p.parts from.parts).0 in
    let hr : List String = (common p.parts from.parts).1 in
    let fr : List String = (common p.parts from.parts).2 in
    let rest : IsNormal hr = (All-split IsName out hr (rw here at n)).1 in
    rw (as_relative_string-join p from, join-relative fr hr rest, append_assoc)
      (new-below from (join (ups fr ++ hr)) m
        ∙ ap (λ ps. resolve ps (split (join (ups fr ++ hr))) >>= λ qs. ok (path qs)) there
        ∙ ap (λ r. r >>= λ qs. ok (path qs)) (resolve-relative out fr hr rest)
        ∙ ap (λ qs. ok (path qs)) (sym here))
