-- ===== src/Filesystem/Tests.antt =====
-- Runs of the path functions, and the theorems at concrete paths.
use ren_general.Base.{
  String, ℕ, ◌≡◌, refl, Bool, true, false, Option, none, some, List, [], ◌∷◌, ◌++◌, arith,
  if◌then◌else◌, str_eq, str_eq_refl, text,
}
use ren_general.Exception.{ok, throw, construction}
use ren_general.Filesystem.Path.{
  slash, PathBase, path, new, absolute_string, as_absolute_string, as_relative_string, qualify,
  parse_loop, iterator, find_next, read, add_part, is_absolute, common_root_loop, append_part,
}
use ren_general.Filesystem.Path.Parse.{IsName, IsNormal, new-IsNormal, new-absolute_string}
use ren_general.Filesystem.Access.{create_temporary_file}
use ren_general.Filesystem.Access.Temporary.{create_temporary_file-select}
use ren_general.InputOutput.File.{Files}
use ren_general.Filesystem.Path.Relative.{qualify-as_relative_string}
use ren_general.Filesystem.Directory.{
  root, enter, select, make_single_directory, create_loop, create, list_files, list_directories,
  walk,
}
use ren_general.Filesystem.Directory.Create.{MkdirLaws, create-Exists}
use ren_general.Filesystem.Directory.Walk.{Tree, node, nil, cons, visits, turns, Holds, walk-visits}

abbrev usr_lib : PathBase
usr_lib = path (text "usr" ∷ text "lib" ∷ [])

abbrev usr_share_doc : PathBase
usr_share_doc = path (text "usr" ∷ text "share" ∷ text "doc" ∷ [])

usr_lib-IsNormal : IsNormal usr_lib.parts
usr_lib-IsNormal = ((refl, refl, refl, refl), ((refl, refl, refl, refl), tt))

usr_share_doc-IsNormal : IsNormal usr_share_doc.parts
usr_share_doc-IsNormal =
    ((refl, refl, refl, refl), ((refl, refl, refl, refl), ((refl, refl, refl, refl), tt)))

parses : new (text "//usr/./bin/../lib/") ≡ ok usr_lib
unfolding new parse_loop iterator find_next read add_part is_absolute
parses = refl

climbs_out :
    new (text "/a/../..") ≡ throw (construction (text ".. directory specified at root level!"))
unfolding new parse_loop iterator find_next read add_part is_absolute
climbs_out = refl

relative : as_relative_string usr_lib usr_share_doc ≡ text "../../lib"
unfolding as_relative_string common_root_loop append_part
relative = refl

new-IsNormal_example : IsNormal usr_lib.parts
new-IsNormal_example = new-IsNormal (text "//usr/./bin/../lib/") usr_lib parses

new-absolute_string_example : new (absolute_string usr_lib) ≡ ok usr_lib
new-absolute_string_example = new-absolute_string usr_lib usr_lib-IsNormal

qualify-as_relative_string_example :
    qualify (ok usr_share_doc) (as_relative_string usr_lib usr_share_doc) ≡ ok usr_lib
qualify-as_relative_string_example =
    qualify-as_relative_string usr_lib usr_share_doc usr_lib-IsNormal usr_share_doc-IsNormal

-- A file system that is the list of the names in it; EEXIST is 17.
abbrev has : String → List String → Bool
has p [] = false
has p (q ∷ w) = if str_eq q p then true else has p w

abbrev list_mkdir : String → List String → List String × Option ℕ
list_mkdir p w = if has p w then (w, some 17) else (p ∷ w, none)

abbrev ListExists : String → List String → Type 0
ListExists p w = has p w ≡ true

list_mkdir-laws : MkdirLaws list_mkdir 17 ListExists
list_mkdir-laws = record {
  made = λ p w h. ground (arith, str_eq_refl p);
  there = λ p w h. ground (arith, str_eq_refl p);
  kept = λ p q w h. ground (arith, str_eq_refl p);
}

create-Exists_example : has (text "/usr") (create list_mkdir 17 usr_lib true []).0 ≡ true
unfolding create create_loop make_single_directory enter as_absolute_string root
create-Exists_example =
    create-Exists list_mkdir-laws usr_lib [] (text "usr") [] (text "lib" ∷ []) refl refl

-- A directory with one file, and one directory that holds two.
abbrev listing : String → Option (List (String × Bool))
listing p =
    if str_eq p (text "/")
    then some ((text ".", true) ∷ (text "..", true) ∷ (text "a", false) ∷ (text "d", true) ∷ [])
    else if str_eq p (text "/d")
    then some ((text "b", false) ∷ (text ".", true) ∷ (text "c", false) ∷ [])
    else none

abbrev tree : Tree
tree = node (text "a" ∷ []) (cons (text "d") (node (text "b" ∷ text "c" ∷ []) nil) nil)

walk-visits_example : walk listing 3 root ≡ ok (visits root tree)
unfolding Holds root enter list_files list_directories as_absolute_string turns
walk-visits_example =
    walk-visits listing tree root 3 (refl, refl, (refl, (refl, refl, tt), tt)) (omega arith)

-- The system's mkstemp and fopen, for one template and for any file.
abbrev makes_name : String → Option String
makes_name template = some (absolute_string usr_lib ++ slash ∷ text "a1b2c3")

abbrev opens_empty : String → String → Option String
opens_empty name mode = some []

abbrev no_files : Files
no_files = record { next = 4; streams = λ a. none }

temporary-IsName : IsName (text "a1b2c3")
temporary-IsName = (refl, refl, refl, refl)

create_temporary_file-select_example :
    let (w', result) = create_temporary_file makes_name opens_empty usr_lib no_files in
    let filename = absolute_string usr_lib ++ slash ∷ text "a1b2c3" in
    (result ≡ ok (select usr_lib (text "a1b2c3"), record { file = some no_files.next }))
    × (w'.streams no_files.next
        ≡ some (record {
          filename = filename;
          contents = [];
          in_file = [];
          eof = false;
          error = false;
        }))
    × (new filename ≡ ok (select usr_lib (text "a1b2c3")))
create_temporary_file-select_example =
    create_temporary_file-select makes_name opens_empty usr_lib no_files (text "a1b2c3") []
      usr_lib-IsNormal temporary-IsName refl refl
