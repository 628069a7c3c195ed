-- ===== src/Filesystem/Path/Common.antt =====
-- The common root of two paths by recursion.
use ren_general.Base.{
  String, ◌≡◌, refl, ◌∙◌, inl, inr, List, [], ◌∷◌, ◌++◌, append-nil, append_assoc, arith,
  if◌then◌else◌, Bool-cases, push_back, str_eq, str_eq→eq,
}
use ren_general.Filesystem.Path.{common_root_loop}

-- The common root by recursion: the longest common prefix and both rests.
unfoldable pub common : List String → List String → List String × List String × List String
common (l ∷ ls) (o ∷ os) =
    let (out, ls', os') = common ls os in
    if str_eq l o then (l ∷ out, ls', os') else ([], l ∷ ls, o ∷ os)
common ls os = ([], ls, os)

pub common_root_loop-common :
    (out ls os : List String)
    → common_root_loop out ls os ≡ (out ++ (common ls os).0, (common ls os).1, (common ls os).2)
unfolding common_root_loop common
common_root_loop-common out [] os = rw append-nil refl
common_root_loop-common out (l ∷ ls) [] = rw append-nil refl
common_root_loop-common out (l ∷ ls) (o ∷ os) = elim (Bool-cases (str_eq l o)) [
  | inl e ↦ rw e (common_root_loop-common (push_back out l) ls os ∙ rw append_assoc refl)
  | inr e ↦ rw e (rw append-nil refl)
]

pub common_split :
    (ls os : List String)
    → (ls ≡ (common ls os).0 ++ (common ls os).1) × (os ≡ (common ls os).0 ++ (common ls os).2)
unfolding common
common_split [] os = (refl, refl)
common_split (l ∷ ls) [] = (refl, refl)
common_split (l ∷ ls) (o ∷ os) = ground (arith, str_eq→eq l o, common_split ls os)
