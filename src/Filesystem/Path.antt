-- ===== src/Filesystem/Path.antt =====
-- filesystem.cxx: the string iterator, and class Path (parsing, printing, relative paths).
-- A path is the list of its parts; both subclasses add methods only, so FilePath and DirectoryPath
-- are the same type.
pub mod Split
pub mod Parse
pub mod Common
pub mod Join
pub mod Relative
use mathlib.Core.Option
use mathlib.Core.List.{foldl}
use ren_general.Base.{
  String, find, ℕ, zero, suc, ◌+◌, ◌-◌, Bool, true, false, not, Option, none, some, List, [], ◌∷◌,
  ◌++◌, map, ◌==◌, if◌then◌else◌, is_empty, push_back, pop_back, take, drop, length, str_eq, text,
}
use ren_general.Exception.{Result, ok, throw, out_of_fuel, ◌>>=◌, construction}

abbrev pub slash : ℕ
slash = b'/'

abbrev pub dot : String
dot = b'.' ∷ []

abbrev pub dot_dot : String
dot_dot = b'.' ∷ b'.' ∷ []

-- `RawPath[0]` of the empty string is the terminating zero.
unfoldable pub is_absolute : String → Bool
is_absolute [] = false
is_absolute (c ∷ cs) = c == slash

pub record PathStringIterator : Type 0 where
  pub path_string : String
  pub previous_marker : ℕ
  pub marker : Option ℕ

unfoldable pub iterator : String → PathStringIterator
iterator s = record { path_string = s; previous_marker = 0; marker = some 0 }

-- `none` is the answer false, which changes nothing.
unfoldable pub find_next : PathStringIterator → Option PathStringIterator
find_next it = elim it.marker [
  | none ↦ none
  | some m ↦ some (record it {
    previous_marker = m;
    marker = Option.map (λ k. k + 1) (find slash it.path_string m);
  })
]

-- With the marker at npos the count that is passed to `substr` is past the end.
unfoldable pub read : PathStringIterator → String
read it = elim it.marker [
  | none ↦ drop it.previous_marker it.path_string
  | some m ↦
      if m - 1 - it.previous_marker == 0
      then []
      else take (m - 1 - it.previous_marker) (drop it.previous_marker it.path_string)
]

pub record PathBase : Type 0 where
  pub parts : List String

abbrev pub FilePath : Type 0
FilePath = PathBase

abbrev pub DirectoryPath : Type 0
DirectoryPath = PathBase

abbrev pub path : List String → PathBase
path ps = record { parts = ps }

-- The body of the constructor's loop.
unfoldable pub add_part : List String → String → Result (List String)
add_part parts part =
    if str_eq part []
    then ok parts
    else if str_eq part dot_dot
    then (if is_empty parts
        then throw (construction (text ".. directory specified at root level!"))
        else ok (pop_back parts))
    else if str_eq part dot
    then ok parts
    else ok (push_back parts part)

unfoldable pub parse_loop : ℕ → PathStringIterator → List String → Result (List String)
parse_loop zero it parts = out_of_fuel
parse_loop (suc fuel) it parts = elim (find_next it) [
  | none ↦ ok parts
  | some it' ↦ add_part parts (read it') >>= λ parts'. parse_loop fuel it' parts'
]

-- The constructor from an absolute path.
unfoldable pub new : String → Result PathBase
new absolute =
    if is_empty absolute
    then throw (construction (text "Absolute paths must not be empty."))
    else if not (is_absolute absolute)
    then throw (construction (text "Base paths must be constructed with absolute paths."))
    else (parse_loop (length absolute + 2) (iterator absolute) [] >>= λ parts. ok (path parts))

-- The loop that writes the separator and the part, for each part.
unfoldable pub write_parts : String → List String → String
write_parts separator [] = []
write_parts separator (part ∷ parts) = separator ++ (part ++ write_parts separator parts)

unfoldable pub as_absolute_string : String → PathBase → String
unfolding write_parts
as_absolute_string separator p =
    (if is_empty p.parts then separator else []) ++ write_parts separator p.parts

abbrev pub absolute_string : PathBase → String
absolute_string = as_absolute_string (slash ∷ [])

-- The iterators are what is left of each list: the common parts, then both rests.
unfoldable pub common_root_loop :
    List String → List String → List String → List String × List String × List String
common_root_loop out (l ∷ ls) (o ∷ os) =
    if str_eq l o then common_root_loop (push_back out l) ls os else (out, l ∷ ls, o ∷ os)
common_root_loop out ls os = (out, ls, os)

abbrev pub find_common_root_parts :
    List String → List String → List String × List String × List String
find_common_root_parts = common_root_loop []

-- The lambda AppendPart over its two captured variables.
unfoldable pub append_part : String × Bool → String → String × Bool
append_part (out, first) part = ((if first then out else out ++ slash ∷ []) ++ part, false)

unfoldable pub as_relative_string : PathBase → DirectoryPath → String
as_relative_string p from =
    let (out, here_part, from_part) = find_common_root_parts p.parts from.parts in
    let up = foldl append_part ([], true) (map (λ _. dot_dot) from_part) in
    (foldl append_part up here_part).0

-- FilePath::Qualify and DirectoryPath::Qualify. `working` is what LocateWorkingDirectory gives or
-- throws.
unfoldable pub qualify : Result DirectoryPath → String → Result PathBase
qualify working raw =
    if is_absolute raw
    then new raw
    else (working >>= λ directory. new ((absolute_string directory ++ slash ∷ []) ++ raw))

unfoldable pub is_root : PathBase → Bool
is_root p = is_empty p.parts

unfoldable pub depth : PathBase → ℕ
depth p = length p.parts
