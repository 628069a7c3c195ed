-- ===== src/Annals/General.antt =====
-- annals.cxx: GeneralAnnals, the one log that is made on first use, and never freed.
use ren_general.Base.{String, Option, none, some, text}
use ren_general.Exception.{Result, ok, throw, abort, out_of_fuel}
use ren_general.Filesystem.Path.{DirectoryPath}
use ren_general.Filesystem.Directory.{select}
use ren_general.InputOutput.File.{Files}
use ren_general.Annals.{Annals, new}

-- The first use; `working` is what LocateWorkingDirectory gives or throws.
abbrev pub first_use :
    (fopen : String → String → Option String) → Files → Result DirectoryPath → Files × Result Annals
first_use fopen w (ok directory) = new fopen w (select directory (text "generallog.txt"))
first_use fopen w (throw e) = (w, throw e)
first_use fopen w abort = (w, abort)
first_use fopen w out_of_fuel = (w, out_of_fuel)

-- The instance after the call.
unfoldable pub general_annals :
    (fopen : String → String → Option String)
    → (working : Result DirectoryPath) → Files
    → Option Annals
    → Files × Result Annals
general_annals fopen working w (some instance_made) = (w, ok instance_made)
general_annals fopen working w none = first_use fopen w working
