-- ===== src/Filesystem/Directory/Create.antt =====
-- DirectoryPath::Create against a file system that keeps what it holds. `mkdir` answers EEXIST for a
-- regular file as well, and then Create goes on as if the directory were there.
use ren_general.Base.{
  String, ℕ, ◌≡◌, ap, ◌∙◌, inl, inr, true, Option, none, some, List, [], ◌∷◌, ◌++◌, arith, ==_iff,
  Bool-cases, Option-cases, append_assoc, append-nil,
}
use ren_general.Filesystem.Path.{DirectoryPath, path, absolute_string}
use ren_general.Filesystem.Directory.{root, enter, make_single_directory, create_loop, create}

-- What `mkdir` documents: a directory that it made exists afterwards; EEXIST says that something of
-- that name exists, which need not be a directory; and no call removes anything. So `Exists` is said
-- of names, and not of directories.
pub record MkdirLaws {World : Type 0} (mkdir : String → World → World × Option ℕ) (eexist : ℕ)
    (Exists : String → World → Type 0) : Type 0 where
  pub made : (p : String) (w : World) → (mkdir p w).1 ≡ none → Exists p (mkdir p w).0
  pub there : (p : String) (w : World) → (mkdir p w).1 ≡ some eexist → Exists p (mkdir p w).0
  pub kept : (p q : String) (w : World) → Exists q w → Exists q (mkdir p w).0

module _ {World : Type 0} {mkdir : String → World → World × Option ℕ} {eexist : ℕ}
    {Exists : String → World → Type 0} (laws : MkdirLaws mkdir eexist Exists) where
  make_single_directory-Exists :
      (d : DirectoryPath) (w : World)
      → (make_single_directory mkdir eexist d w).1 ≡ true
      → Exists (absolute_string d) (make_single_directory mkdir eexist d w).0
  unfolding make_single_directory
  make_single_directory-Exists d w h = elim (Option-cases (mkdir (absolute_string d) w).1) [
    | inl e ↦ laws.made (absolute_string d) w e
    | inr (n, e) ↦
        laws.there (absolute_string d) w
          (e ∙ ap some ((==_iff n eexist).0 (rw (e, make_single_directory) at h)))
  ]

  make_single_directory-kept :
      (d : DirectoryPath) (w : World) (q : String)
      → Exists q w
      → Exists q (make_single_directory mkdir eexist d w).0
  unfolding make_single_directory
  make_single_directory-kept d w q h = laws.kept (absolute_string d) q w h

  create_loop-kept :
      (a : DirectoryPath) (ps : List String) (w : World) (q : String)
      → Exists q w
      → Exists q (create_loop mkdir eexist a ps w).0
  unfolding create_loop
  create_loop-kept a [] w q h = h
  create_loop-kept a (p ∷ ps) w q h =
      let d = enter a p in
      let after = make_single_directory-kept d w q h in
      elim (Bool-cases (make_single_directory mkdir eexist d w).1) [
        | inl e ↦ rw (e, create_loop) (create_loop-kept d ps _ q after)
        | inr e ↦ rw (e, create_loop) after
      ]

  -- A loop that succeeds made its first directory, and goes on from there.
  create_loop-cons :
      (a : DirectoryPath) (p : String) (ps : List String) (w : World)
      → (create_loop mkdir eexist a (p ∷ ps) w).1 ≡ true
      → let (w', made) = make_single_directory mkdir eexist (enter a p) w in
        (made ≡ true)
        × (create_loop mkdir eexist a (p ∷ ps) w ≡ create_loop mkdir eexist (enter a p) ps w')
  unfolding create_loop
  create_loop-cons a p ps w h = ground arith

  create_loop-Exists :
      (d : DirectoryPath) (xs ys : List String) (w : World)
      → (create_loop mkdir eexist d (xs ++ ys) w).1 ≡ true
      → Exists (absolute_string d) w
      → Exists (absolute_string (path (d.parts ++ xs))) (create_loop mkdir eexist d (xs ++ ys) w).0
  unfolding enter
  create_loop-Exists d [] ys w h there = rw append-nil (create_loop-kept d ys w _ there)
  create_loop-Exists d (x ∷ xs) ys w h there =
      let (made, rest) = create_loop-cons d x (xs ++ ys) w h in
      rw (rest, ← append_assoc d.parts (x ∷ []) xs)
        (create_loop-Exists (enter d x) xs ys _ (rw rest at h)
          (make_single_directory-Exists (enter d x) w made))

  -- When `create` with ancestors answers true, the path of each nonempty prefix of the parts is the
  -- name of something that exists, which need not be a directory.
  pub create-Exists :
      (d : DirectoryPath) (w : World) (x : String) (xs ys : List String)
      → d.parts ≡ x ∷ (xs ++ ys)
      → (create mkdir eexist d true w).1 ≡ true
      → Exists (absolute_string (path (x ∷ xs))) (create mkdir eexist d true w).0
  unfolding create root enter
  create-Exists d w x xs ys e h =
      let h' = rw e at h in
      let (made, rest) = create_loop-cons root x (xs ++ ys) w h' in
      rw (e, rest)
        (create_loop-Exists (enter root x) xs ys _ (rw rest at h')
          (make_single_directory-Exists (enter root x) w made))
