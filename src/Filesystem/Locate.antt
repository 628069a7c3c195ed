-- ===== src/Filesystem/Locate.antt =====
-- filesystem.cxx: the functions that locate directories from the environment. `getenv`, `getcwd`
-- and `chdir` are parameters: a variable's value or none, and the buffer or none on failure.
use ren_general.Base.{String, ◌≡◌, refl, Option, none, some, [], ◌∷◌, ◌++◌, append_assoc, text}
use ren_general.Exception.{Result, ok, throw, ◌>>=◌, system}
use ren_general.Filesystem.Path.{dot, FilePath, DirectoryPath, path, absolute_string, new, qualify}
use ren_general.Filesystem.Path.Parse.{IsNormal, resolve_names, split_part}
use ren_general.Filesystem.Path.Relative.{new-below}
use ren_general.Filesystem.Directory.{enter, select}

module _ (getenv : String → Option String) (getcwd : Option String) where
  unfoldable pub locate_working_directory : Result DirectoryPath
  locate_working_directory = elim getcwd [
    | none ↦ throw (system (text "Couldn't obtain working directory!"))
    | some buffer ↦ new buffer
  ]

  unfoldable pub get_user_config_directory : Result String
  get_user_config_directory = elim (getenv (text "XDG_CONFIG_HOME")) [
    | some home ↦ ok home
    | none ↦ elim (getenv (text "HOME")) [
      | some home ↦ ok (home ++ text "/.config")
      | none ↦
          throw (system (text "User's local config directory and home directory are undefined!"))
    ]
  ]

  unfoldable pub get_global_config_directory : String
  get_global_config_directory = text "/etc"

  unfoldable pub locate_user_config_file : String → Result FilePath
  unfolding get_user_config_directory
  locate_user_config_file filename = do
    directory ← get_user_config_directory
    d ← new directory
    ok (select d filename)

  unfoldable pub locate_user_project_config_file : String → String → Result FilePath
  unfolding get_user_config_directory
  locate_user_project_config_file project filename = do
    directory ← get_user_config_directory
    d ← new directory
    ok (select (enter d project) filename)

  unfoldable pub locate_global_config_file : String → Result FilePath
  unfolding get_global_config_directory
  locate_global_config_file filename = do
    d ← new get_global_config_directory
    ok (select d filename)

  unfoldable pub locate_global_project_config_file : String → String → Result FilePath
  unfolding get_global_config_directory
  locate_global_project_config_file project filename = do
    d ← new get_global_config_directory
    ok (select (enter d project) filename)

  -- Without RENGENERAL_FILESYSTEM_DATALOCATION.
  unfoldable pub locate_data_directory : Result DirectoryPath
  locate_data_directory = qualify locate_working_directory dot

  unfoldable pub locate_document_directory : Result DirectoryPath
  locate_document_directory = elim (getenv (text "HOME")) [
    | none ↦ throw (system (text "User's home directory is undefined!"))
    | some home ↦ new home
  ]

  unfoldable pub locate_project_document_directory : String → Result DirectoryPath
  unfolding locate_document_directory
  locate_project_document_directory project = do d ← locate_document_directory; ok (enter d project)

  unfoldable pub locate_temporary_directory : Result DirectoryPath
  locate_temporary_directory = elim (getenv (text "TMPDIR")) [
    | some temporary ↦ new temporary
    | none ↦ elim (getenv (text "P_tmpdir")) [
      | some temporary ↦ new temporary
      | none ↦ new (text "/tmp")
    ]
  ]

  -- With no XDG_CONFIG_HOME and a normal absolute HOME, a project's configuration file stands in
  -- the project's directory in `.config` of HOME, also where HOME is the root.
  pub locate_user_project_config_file-home :
      (home : DirectoryPath) (project filename : String)
      → IsNormal home.parts
      → getenv (text "XDG_CONFIG_HOME") ≡ none
      → getenv (text "HOME") ≡ some (absolute_string home)
      → locate_user_project_config_file project filename
        ≡ ok (path (home.parts ++ text ".config" ∷ project ∷ filename ∷ []))
  unfolding locate_user_project_config_file select enter
  locate_user_project_config_file-home home project filename n xdg h =
      rw (xdg, get_user_config_directory, h)
        (rw (new-below home (text ".config") n) (
          rw
            (
              split_part (text ".config") refl,
              resolve_names home.parts (text ".config" ∷ []) ((refl, refl, refl, refl), tt),
            )
            (simp append_assoc refl)))
