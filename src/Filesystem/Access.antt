-- ===== src/Filesystem/Access.antt =====
-- filesystem.cxx: what FilePath and DirectoryPath ask the operating system, as built without
-- WINDOWS, over the streams of inputoutput.cxx. The calls of the system are parameters, which act
-- on a world; fopen is that of File and of File/Input.
pub mod Temporary
use ren_general.Base.{
  String, text, ℕ, ◌+◌, Bool, true, false, Option, none, some, ◌++◌, if◌then◌else◌,
}
use ren_general.Exception.{Result, ok, throw, abort, out_of_fuel, system}
use ren_general.Filesystem.Path.{FilePath, DirectoryPath, PathBase, absolute_string, new}
use ren_general.InputOutput.File.{Files, FileOutput}
use ren_general.InputOutput.File as output
use ren_general.InputOutput.File.Input.{Source}
use ren_general.InputOutput.File.Input as input

-- What `stat` says of a path.
pub data Kind : Type 0 where
  regular folder special : Kind

abbrev pub is_regular : Option Kind → Bool
is_regular none = false
is_regular (some regular) = true
is_regular (some folder) = false
is_regular (some special) = false

abbrev pub is_folder : Option Kind → Bool
is_folder none = false
is_folder (some regular) = false
is_folder (some folder) = true
is_folder (some special) = false

abbrev pub change_result : DirectoryPath → Option String → Result (Unit {0})
change_result target none = ok tt
change_result target (some error) = throw (
    system (
      ((text "Couldn't change working directory to \"" ++ absolute_string target) ++ text "\": ")
      ++ error))

module _ {World : Type 0} where
  -- FilePath::Exists and DirectoryPath::Exists.
  unfoldable pub file_exists : (stat : String → World → Option Kind) → FilePath → World → Bool
  file_exists stat p w = is_regular (stat (absolute_string p) w)

  unfoldable pub directory_exists :
      (stat : String → World → Option Kind) → DirectoryPath → World → Bool
  directory_exists stat d w = is_folder (stat (absolute_string d) w)

  -- FilePath::Delete; `unlink` answers whether it returned 0.
  unfoldable pub delete : (unlink : String → World → World × Bool) → FilePath → World → World × Bool
  delete unlink p w = unlink (absolute_string p) w

  -- ChangeWorkingDirectory; `chdir` answers with what strerror says of its error, if there is one.
  unfoldable pub change_working_directory :
      (chdir : String → World → World × Option String)
      → DirectoryPath
      → World
      → World × Result (Unit {0})
  change_working_directory chdir target w =
      let (w', error) = chdir (absolute_string target) w in (w', change_result target error)

-- FilePath::Read, and the conversion to FileInput.
unfoldable pub read_file : (fopen : String → String → Option Source) → FilePath → Result Source
read_file fopen p = input.new fopen (absolute_string p)

-- FilePath::Write: FileOutput::Erase is 1 and FileOutput::Append is 2.
unfoldable pub write_file :
    (fopen : String → String → Option String)
    → FilePath
    → (append truncate : Bool) → Files
    → Files × Result FileOutput
write_file fopen p append truncate w =
    output.new fopen w (absolute_string p) ((if append then 2 else 0) + (if truncate then 1 else 0))

-- The conversion to FileOutput.
unfoldable pub as_file_output :
    (fopen : String → String → Option String) → FilePath → Files → Files × Result FileOutput
unfolding write_file
as_file_output fopen p w = write_file fopen p false false w

-- The pair of the path and the stream, of which the path is constructed first.
abbrev pub with_stream :
    FilePath → Files × Result FileOutput → Files × Result (FilePath × FileOutput)
with_stream p (w, ok out) = (w, ok (p, out))
with_stream p (w, throw e) = (w, throw e)
with_stream p (w, abort) = (w, abort)
with_stream p (w, out_of_fuel) = (w, out_of_fuel)

abbrev pub open_temporary :
    (fopen : String → String → Option String)
    → Files
    → String
    → Result FilePath
    → Files × Result (FilePath × FileOutput)
open_temporary fopen w filename (ok p) = with_stream p (output.new fopen w filename 1)
open_temporary fopen w filename (throw e) = (w, throw e)
open_temporary fopen w filename abort = (w, abort)
open_temporary fopen w filename out_of_fuel = (w, out_of_fuel)

abbrev pub after_mkstemp :
    (fopen : String → String → Option String)
    → DirectoryPath
    → Files
    → Option String
    → Files × Result (FilePath × FileOutput)
after_mkstemp fopen temp_directory w none = (
  w,
  throw (
      system (
        (text "Failed to locate temporary file in " ++ absolute_string temp_directory)
        ++ text "!")),
)
after_mkstemp fopen temp_directory w (some filename) =
    open_temporary fopen w filename (new filename)

-- CreateTemporaryFile. `mkstemp` answers with the name that it has made of the template.
unfoldable pub create_temporary_file :
    (mkstemp : String → Option String)
    → (fopen : String → String → Option String) → DirectoryPath
    → Files
    → Files × Result (FilePath × FileOutput)
create_temporary_file mkstemp fopen temp_directory w =
    after_mkstemp fopen temp_directory w
      (mkstemp (absolute_string temp_directory ++ text "/XXXXXX"))
