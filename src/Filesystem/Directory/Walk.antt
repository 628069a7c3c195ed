-- ===== src/Filesystem/Directory/Walk.antt =====
-- DirectoryPath::Walk visits a directory tree in preorder: the files of a directory, then the trees
-- below it, each in the order of the listing. A tree is what the file system holds at the time.
use native.Mathlib.Nat.{zero-add}
use ren_general.Base.{
  String, ℕ, suc, ◌+◌, ◌-◌, ◌<◌, ◌≡◌, refl, ap, ◌∙◌, Bool, false, Option, List, [], ◌∷◌, ◌++◌, map,
  arith, is_empty, pop_back-push_back, is_empty-push_back, append_assoc, append-nil,
}
use ren_general.Exception.{ok}
use ren_general.Filesystem.Path.{FilePath, DirectoryPath}
use ren_general.Filesystem.Directory.{
  enter, exit, select, list_files, list_directories, process_files, queue_new_transitions,
  walk_loop, walk,
}

mutual
  -- A directory: the names of its files, and its directories.
  pub data Tree : Type 0 where
    node : List String → Forest → Tree

  pub data Forest : Type 0 where
    nil : Forest
    cons : String → Tree → Forest → Forest

abbrev pub files : Tree → List String
files (node fs ds) = fs

abbrev pub below : Tree → Forest
below (node fs ds) = ds

abbrev pub names : Forest → List String
names nil = []
names (cons n t ds) = n ∷ names ds

unfoldable mutual
  pub visits : DirectoryPath → Tree → List FilePath
  visits d (node fs ds) = map (select d) fs ++ visits_below d ds

  pub visits_below : DirectoryPath → Forest → List FilePath
  visits_below d nil = []
  visits_below d (cons n t ds) = visits (enter d n) t ++ visits_below d ds

-- How often the loop turns: once on the way into a directory, once on the way out.
unfoldable mutual
  pub turns : Tree → ℕ
  turns (node fs ds) = turns_below ds

  pub turns_below : Forest → ℕ
  turns_below nil = 0
  turns_below (cons n t ds) = 2 + turns t + turns_below ds

exit-enter : (d : DirectoryPath) (n : String) → exit (enter d n) ≡ ok d
unfolding exit enter
exit-enter d n = rw (is_empty-push_back d.parts n, pop_back-push_back d.parts n) refl

module _ (entries : String → Option (List (String × Bool))) where
  -- The listing of each directory is that of the tree, and no name is empty.
  unfoldable mutual
    pub Holds : DirectoryPath → Tree → Type 0
    Holds d (node fs ds) =
        (list_files entries d ≡ fs) × (list_directories entries d ≡ names ds) × HoldsBelow d ds

    pub HoldsBelow : DirectoryPath → Forest → Type 0
    HoldsBelow d nil = Unit {0}
    HoldsBelow d (cons n t ds) = (is_empty n ≡ false) × Holds (enter d n) t × HoldsBelow d ds

  enter_turn :
      (fuel : ℕ) (n : String) (ts : List String) (d : DirectoryPath) (out : List FilePath)
      → is_empty n ≡ false
      → walk_loop entries (suc fuel) (n ∷ ts) d out
        ≡ walk_loop entries fuel
            (list_directories entries (enter d n) ++ [] ∷ ts)
            (enter d n)
            (out ++ map (select (enter d n)) (list_files entries (enter d n)))
  unfolding walk_loop queue_new_transitions process_files
  enter_turn fuel n ts d out h = rw (h, walk_loop) refl

  exit_turn :
      (fuel : ℕ) (n : String) (ts : List String) (d : DirectoryPath) (out : List FilePath)
      → walk_loop entries (suc fuel) ([] ∷ ts) (enter d n) out ≡ walk_loop entries fuel ts d out
  unfolding walk_loop
  exit_turn fuel n ts d out = rw (exit-enter d n) refl

  mutual
    unfolding Holds visits turns

    walk_tree :
        (t : Tree) (k : ℕ) (d : DirectoryPath) (n : String) (ts : List String) (out : List FilePath)
        → Holds (enter d n) t
        → is_empty n ≡ false
        → walk_loop entries (2 + turns t + k) (n ∷ ts) d out
          ≡ walk_loop entries k ts d (out ++ visits (enter d n) t)
    walk_tree (node fs ds) k d n ts out h ne =
        let fuel : 2 + turns_below ds + k ≡ suc (turns_below ds + suc k) = omega arith in
        rw fuel (
          enter_turn (turns_below ds + suc k) n ts d out ne
          ∙ (rw (h.0, h.1)
                (walk_below ds (suc k) (enter d n) ([] ∷ ts) (out ++ map (select (enter d n)) fs)
                  h.2)
              ∙ exit_turn k n ts d _
              ∙ ap (walk_loop entries k ts d)
                  (append_assoc out (map (select (enter d n)) fs) (visits_below (enter d n) ds))))

    walk_below :
        (ds : Forest) (k : ℕ) (d : DirectoryPath) (ts : List String) (out : List FilePath)
        → HoldsBelow d ds
        → walk_loop entries (turns_below ds + k) (names ds ++ ts) d out
          ≡ walk_loop entries k ts d (out ++ visits_below d ds)
    walk_below nil k d ts out h = rw (zero-add, append-nil) refl
    walk_below (cons n t ds) k d ts out h =
        let fuel : 2 + turns t + turns_below ds + k ≡ 2 + turns t + (turns_below ds + k) =
          omega arith in
        rw fuel (
          walk_tree t (turns_below ds + k) d n (names ds ++ ts) out h.1 h.0
          ∙ walk_below ds k d ts (out ++ visits (enter d n) t) h.2
          ∙ ap (walk_loop entries k ts d)
              (append_assoc out (visits (enter d n) t) (visits_below d ds)))

  walk_end :
      (k : ℕ) (d : DirectoryPath) (out : List FilePath)
      → walk_loop entries (suc k) [] d out ≡ ok out
  unfolding walk_loop
  walk_end k d out = refl

  -- Where the file system holds the tree `t` at `d`, walking from `d` ends, calls the handler with
  -- every file of the tree in preorder, and fails no assertion, given more fuel than turns.
  pub walk-visits :
      (t : Tree) (d : DirectoryPath) (fuel : ℕ)
      → Holds d t
      → turns t < fuel
      → walk entries fuel d ≡ ok (visits d t)
  unfolding walk queue_new_transitions process_files Holds visits turns
  walk-visits (node fs ds) d fuel h enough =
      let k : ℕ = fuel - turns_below ds - 1 in
      let split : fuel ≡ turns_below ds + suc k = omega arith in
      let out : List FilePath = map (select d) fs in
      rw (h.0, h.1)
        (ap (λ n. walk_loop entries n (names ds ++ []) d out) split
          ∙ walk_below ds (suc k) d [] out h.2
          ∙ walk_end k d (out ++ visits_below d ds))
