-- ===== src/Filesystem/Access/Temporary.antt =====
-- Where the temporary file is.
use ren_general.Base.{
  String, text, Option, true, false, arith, ◌==◌, ◌≡◌, refl, ap, ◌∙◌, some, List, [], ◌∷◌, ◌++◌,
  append-nil, append_assoc, push_back, All-append,
}
use ren_general.Exception.{ok, ◌>>=◌}
use ren_general.Filesystem.Path.{
  slash, PathBase, path, new, absolute_string, as_absolute_string, write_parts, is_absolute,
  add_part,
}
use ren_general.Filesystem.Path.Split.{split, resolve, new-resolve}
use ren_general.Filesystem.Path.Parse.{
  IsName, IsNormal, NoSlash, split-append, split_part, resolve_names, new-absolute_string,
}
use ren_general.Filesystem.Directory.{select}
use ren_general.Filesystem.Access.{create_temporary_file}
use ren_general.InputOutput.File.{Files, FileOutput}
use ren_general.InputOutput.File as output

write_parts-push_back :
    (ps : List String) (w : String)
    → write_parts (slash ∷ []) ps ++ slash ∷ w ≡ write_parts (slash ∷ []) (push_back ps w)
unfolding write_parts
write_parts-push_back [] w = rw append-nil refl
write_parts-push_back (p ∷ ps) w = ap (◌∷◌ slash) (
    append_assoc p (write_parts (slash ∷ []) ps) (slash ∷ w)
    ∙ ap (λ s. p ++ s) (write_parts-push_back ps w))

split-root : (w : String) → NoSlash w → split (slash ∷ slash ∷ w) ≡ [] ∷ [] ∷ w ∷ []
split-root w h =
    split-append [] (slash ∷ w) refl
    ∙ ap (◌∷◌ []) (split-append [] w refl ∙ ap (◌∷◌ []) (split_part w h))

-- A name behind the printed path of a directory is the path of that file in it.
pub new-select :
    (ps : List String) (w : String)
    → IsNormal ps
    → IsName w
    → new (absolute_string (path ps) ++ slash ∷ w) ≡ ok (path (push_back ps w))
unfolding as_absolute_string is_absolute resolve add_part
new-select [] w n h =
    new-resolve (slash ∷ slash ∷ w) refl
    ∙ ap (λ ws. resolve [] ws >>= λ parts. ok (path parts)) (split-root w h.0)
    ∙ ap (λ r. r >>= λ parts. ok (path parts)) (resolve_names [] (w ∷ []) (h, tt))
new-select (p ∷ ps) w n h =
    ap new (write_parts-push_back (p ∷ ps) w)
    ∙ new-absolute_string (path (push_back (p ∷ ps) w))
        (All-append IsName (p ∷ ps) (w ∷ []) n (h, tt))

-- For a directory whose parts are normal (none is empty, `.` or `..`, or holds a slash), where the
-- system makes a name of the template whose last part is of that kind too, and opens the file of that
-- name for writing, CreateTemporaryFile returns the path of that last part in the directory, and an
-- object whose FILE is open under that name, with the contents that were opened. The name is one from
-- which the path is constructed.
pub create_temporary_file-select :
    (mkstemp : String → Option String) (fopen : String → String → Option String) (d : PathBase)
    (w : Files) (name contents : String)
    → IsNormal d.parts
    → IsName name
    → mkstemp (absolute_string d ++ text "/XXXXXX") ≡ some (absolute_string d ++ slash ∷ name)
    → fopen (absolute_string d ++ slash ∷ name) (text "w") ≡ some contents
    → let (w', result) = create_temporary_file mkstemp fopen d w in
      let filename = absolute_string d ++ slash ∷ name in
      (result ≡ ok (select d name, record { file = some w.next }))
      × (w'.streams w.next
          ≡ some (record {
            filename = filename;
            contents = contents;
            in_file = contents;
            eof = false;
            error = false;
          }))
      × (new filename ≡ ok (select d name))
unfolding create_temporary_file select output.new
create_temporary_file-select mkstemp fopen d w name contents n h made opened =
    let constructed = new-select d.parts name n h in
    let itself : (w.next == w.next) ≡ true = ground arith in
    (rw (made, constructed, opened) refl, rw (made, constructed, opened, itself) refl, constructed)
