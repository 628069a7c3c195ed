-- ===== src/Filesystem/Directory.antt =====
-- filesystem.cxx: the methods of FilePath and DirectoryPath. What the operating system answers is a
-- parameter: `readdir` entries by path, and `mkdir` and `stat` as functions of a world.
pub mod Root
pub mod Create
pub mod Walk
use ren_general.Base.{
  String, ℕ, zero, suc, ◌≡◌, Bool, true, false, not, ◌||◌, Option, none, some, List, [], ◌∷◌, ◌++◌,
  map, ◌==◌, if◌then◌else◌, is_empty, push_back, pop_back, str_eq, text,
}
use ren_general.Exception.{
  Result, ok, throw, abort, out_of_fuel, ◌>>=◌, ◌>>◌, assert, Error, system,
}
use ren_general.Filesystem.Path.{
  PathBase, FilePath, DirectoryPath, path, absolute_string, find_common_root_parts, is_root, dot,
  dot_dot,
}

-- `Parts.back()`; of an empty list it is undefined, a failed assertion here.
unfoldable pub last : List String → Result String
last [] = abort
last (x ∷ []) = ok x
last (x ∷ y ∷ xs) = last (y ∷ xs)

unfoldable pub file : FilePath → Result String
unfolding last
file p = last p.parts

-- `--Parts.end()` of an empty list is undefined, too.
unfoldable pub directory : FilePath → Result DirectoryPath
directory p = if is_empty p.parts then abort else ok (path (pop_back p.parts))

-- DirectoryPath(void).
unfoldable pub root : DirectoryPath
root = path []

unfoldable pub exit : DirectoryPath → Result DirectoryPath
unfolding is_root
exit d = assert (not (is_root d)) >> ok (path (pop_back d.parts))

unfoldable pub enter : DirectoryPath → String → DirectoryPath
enter d name = path (push_back d.parts name)

unfoldable pub select : DirectoryPath → String → FilePath
select d name = path (push_back d.parts name)

unfoldable pub find_common_root : DirectoryPath → DirectoryPath → DirectoryPath
find_common_root d other = path (find_common_root_parts d.parts other.parts).0

-- `mkdir`: the new world, and the error number of a call that returned -1.
module _ {World : Type 0} (mkdir : String → World → World × Option ℕ) (eexist : ℕ) where
  unfoldable pub make_single_directory : DirectoryPath → World → World × Bool
  make_single_directory d w =
      let (w', error) = mkdir (absolute_string d) w in
      (w', elim error [ none ↦ true | some e ↦ e == eexist ])

  unfoldable pub create_loop : DirectoryPath → List String → World → World × Bool
  create_loop ancestor [] w = (w, true)
  create_loop ancestor (part ∷ parts) w =
      let ancestor' = enter ancestor part in
      let (w', made) = make_single_directory ancestor' w in
      elim made [ true ↦ create_loop ancestor' parts w' | false ↦ (w', false) ]

  unfoldable pub create : DirectoryPath → Bool → World → World × Bool
  unfolding create_loop
  create d ensure_ancestors w =
      if ensure_ancestors then create_loop root d.parts w else make_single_directory d w

-- `opendir` and `readdir`: `none` if the directory cannot be opened, otherwise each entry with
-- whether its type is DT_DIR.
module _ (entries : String → Option (List (String × Bool))) where
  -- The loop over the entries: each one that is handed on, with IsFile.
  unfoldable pub process_entries : List (String × Bool) → List (String × Bool)
  process_entries [] = []
  process_entries ((name, is_directory) ∷ rest) =
      if str_eq name dot || str_eq name dot_dot
      then process_entries rest
      else (name, not is_directory) ∷ process_entries rest

  unfoldable pub process_directory_contents : DirectoryPath → List (String × Bool)
  unfolding process_entries
  process_directory_contents d = elim (entries (absolute_string d)) [
    | none ↦ []
    | some es ↦ process_entries es
  ]

  -- The lambdas of ListFiles and ListDirectories push the names with IsFile, and those without.
  unfoldable pub keep : (Bool → Bool) → List (String × Bool) → List String
  keep test [] = []
  keep test ((name, is_file) ∷ rest) =
      if test is_file then name ∷ keep test rest else keep test rest

  unfoldable pub list_files : DirectoryPath → List String
  unfolding process_directory_contents keep
  list_files d = keep (λ is_file. is_file) (process_directory_contents d)

  unfoldable pub list_directories : DirectoryPath → List String
  unfolding process_directory_contents keep
  list_directories d = keep not (process_directory_contents d)

  -- The calls of the handler for the files of one directory.
  unfoldable pub process_files : DirectoryPath → List FilePath
  process_files marker = map (select marker) (list_files marker)

  unfoldable pub queue_new_transitions : List String → DirectoryPath → List String
  queue_new_transitions transitions marker = list_directories marker ++ transitions

  -- The result is the files that the handler was called with, in order.
  unfoldable pub walk_loop :
      ℕ → List String → DirectoryPath → List FilePath → Result (List FilePath)
  walk_loop zero transitions marker out = out_of_fuel
  walk_loop (suc fuel) [] marker out = ok out
  walk_loop (suc fuel) (next ∷ transitions) marker out = elim (is_empty next) [
    | true ↦ exit marker >>= λ marker'. walk_loop fuel transitions marker' out
    | false ↦
        let marker' = enter marker next in
        walk_loop fuel (queue_new_transitions ([] ∷ transitions) marker') marker'
          (out ++ process_files marker')
  ]

  unfoldable pub walk : ℕ → DirectoryPath → Result (List FilePath)
  unfolding walk_loop
  walk fuel d = walk_loop fuel (queue_new_transitions [] d) d (process_files d)
