-- ===== src/Filesystem/Directory/Root.antt =====
-- DirectoryPath::FindCommonRoot, and the accessors of a selected file.
use ren_general.Base.{
  String, ◌≡◌, ◌≢◌, refl, inl, inr, List, [], ◌∷◌, ◌++◌, arith, Bool-cases, str_eq, str_eq_refl,
  push_back, pop_back-push_back, is_empty-push_back,
}
use ren_general.Exception.{ok}
use ren_general.Filesystem.Path.{DirectoryPath}
use ren_general.Filesystem.Path.Common.{common, common_root_loop-common, common_split}
use ren_general.Filesystem.Directory.{find_common_root, select, file, last, directory}

-- The two lists do not begin with the same part.
abbrev pub Diverge : List String → List String → Type 0
Diverge (x ∷ xs) (y ∷ ys) = x ≢ y
Diverge xs ys = Unit {0}

common-Diverge : (ls os : List String) → Diverge (common ls os).1 (common ls os).2
unfolding common
common-Diverge [] os = tt
common-Diverge (l ∷ ls) [] = tt
common-Diverge (l ∷ ls) (o ∷ os) = elim (Bool-cases (str_eq l o)) [
  | inl e ↦ rw (e, common) (common-Diverge ls os)
  | inr e ↦ rw (e, common) (λ same. ground (arith, str_eq_refl l))
]

-- The common root is the longest common prefix of the parts: both paths continue it, and what
-- follows it does not begin with the same part in both.
pub find_common_root-Diverge :
    (d other : DirectoryPath)
    → (xs : List String) × (ys : List String) × (d.parts ≡ (find_common_root d other).parts ++ xs)
      × (other.parts ≡ (find_common_root d other).parts ++ ys)
      × Diverge xs ys
unfolding find_common_root
find_common_root-Diverge d other =
    let (here, there) = common_split d.parts other.parts in
    rw (common_root_loop-common [] d.parts other.parts) (
      (common d.parts other.parts).1,
      (common d.parts other.parts).2,
      here,
      there,
      common-Diverge d.parts other.parts,
    )

last-push_back : (xs : List String) (x : String) → last (push_back xs x) ≡ ok x
unfolding last
last-push_back [] x = refl
last-push_back (y ∷ []) x = refl
last-push_back (y ∷ z ∷ zs) x = last-push_back (z ∷ zs) x

-- A file selected in a directory has that name and that directory.
pub select_lem :
    (d : DirectoryPath) (name : String)
    → (file (select d name) ≡ ok name) × (directory (select d name) ≡ ok d)
unfolding file directory select
select_lem d name = (
  last-push_back d.parts name,
  rw (is_empty-push_back d.parts name, pop_back-push_back d.parts name) refl,
)
