-- ===== src/Annals.antt =====
-- annals.cxx and annals.h: the log. The file that it writes to is a FileOutput over the C library's
-- FILEs, the console is StandardStream, and both with their devices are as in InputOutput. The calls
-- of the extra ledger are kept in order; what its HandleLog, of a derived class, answers is a
-- parameter. The levels are the numbers of LedgerLevels; `show` is the stream's printing of an int.
pub mod Indent
pub mod Delivery
pub mod General
pub mod Tests
use ren_general.Base.{
  String, ℕ, zero, suc, ◌+◌, Bool, true, false, not, ◌&&◌, Option, none, some, List, [], ◌∷◌, ◌++◌,
  ◌==◌, leb, if◌then◌else◌, is_empty, push_back, length, text, find, insert,
}
use ren_general.Exception.{Result, ok, throw, abort, out_of_fuel, ◌>>=◌}
use ren_general.Filesystem.Path.{FilePath}
use ren_general.Filesystem.Access.{write_file}
use ren_general.InputOutput.File.{Stream, Files, FileOutput, assign, through}
use ren_general.InputOutput.File as file
use ren_general.InputOutput.Standard.{StandardStream}
use ren_general.InputOutput.Standard as console

-- LedgerLevels.
abbrev pub rl_verbose : ℕ
rl_verbose = 1

abbrev pub rl_default : ℕ
rl_default = 5

abbrev pub rl_warnings : ℕ
rl_warnings = 6

abbrev pub rl_errors : ℕ
rl_errors = 7

abbrev pub rl_fatal_errors : ℕ
rl_fatal_errors = 8

abbrev pub rl_off : ℕ
rl_off = 9

abbrev pub newline : ℕ
newline = 10

abbrev pub tab : ℕ
tab = 9

pub record Entry : Type 0 where
  pub level : ℕ
  pub message : String
  pub extra : String

pub record Annals : Type 0 where
  pub file_level : ℕ
  pub console_level : ℕ
  pub default_location : FilePath
  pub file_output : FileOutput
  pub extra_ledger : Bool

-- What the log writes to.
pub record Outputs : Type 0 where
  pub files : Files
  pub console : StandardStream
  pub handled : List Entry

module _ (fopen : String → String → Option String) where
  abbrev pub made : FilePath → Files × Result FileOutput → Files × Result Annals
  made location (w, r) = (
    w,
    r >>= λ out. ok (record {
      file_level = rl_default;
      console_level = rl_warnings;
      default_location = location;
      file_output = out;
      extra_ledger = false;
    }),
  )

  unfoldable pub new : Files → FilePath → Files × Result Annals
  new w location = made location (write_file fopen location true true w)

  -- FileOutputInstance is assigned from the object that was opened.
  abbrev pub reassigned : Annals → Files × Result FileOutput → (Files × Annals) × Result (Unit {0})
  reassigned a (w, ok out) = ((w, record a { file_output = (assign a.file_output out).0 }), ok tt)
  reassigned a (w, throw e) = ((w, a), throw e)
  reassigned a (w, abort) = ((w, a), abort)
  reassigned a (w, out_of_fuel) = ((w, a), out_of_fuel)

  unfoldable pub default_settings : Files → Annals → (Files × Annals) × Result (Unit {0})
  default_settings w a =
      reassigned (record a { file_level = rl_default; console_level = rl_warnings })
        (write_file fopen a.default_location true false w)

  unfoldable pub set_file_output_location :
      Files → Annals → FilePath → (Files × Annals) × Result (Unit {0})
  set_file_output_location w a location = reassigned a (write_file fopen location true true w)

unfoldable pub set_extra_ledger : Annals → Bool → Annals
set_extra_ledger a ledger = record a { extra_ledger = ledger }

unfoldable pub set_file_output : Annals → Bool → ℕ → Annals
set_file_output a on minimum_level = record a {
  file_level = if not on then rl_off else minimum_level;
}

unfoldable pub set_console_output : Annals → Bool → ℕ → Annals
set_console_output a on minimum_level = record a {
  console_level = if not on then rl_off else minimum_level;
}

-- A call, and then another unless it throws.
abbrev pub chain :
    Outputs × Result (Unit {0})
    → (Outputs → Outputs × Result (Unit {0}))
    → Outputs × Result (Unit {0})
chain (o, ok t) next = next o
chain (o, throw e) next = (o, throw e)
chain (o, abort) next = (o, abort)
chain (o, out_of_fuel) next = (o, out_of_fuel)

-- An operator of the log's FileOutput, and one of StandardStream, which is as it was if that throws.
abbrev pub file_put :
    Annals → (Stream → Stream × Result (Unit {0})) → Outputs → Outputs × Result (Unit {0})
file_put a operator o =
    let (files, result) = through o.files a.file_output operator in
    (record o { files = files }, result)

abbrev pub settled : Outputs → Result StandardStream → Outputs × Result (Unit {0})
settled o (ok s) = (record o { console = s }, ok tt)
settled o (throw e) = (o, throw e)
settled o abort = (o, abort)
settled o out_of_fuel = (o, out_of_fuel)

abbrev pub console_put :
    (StandardStream → Result StandardStream) → Outputs → Outputs × Result (Unit {0})
console_put operator o = settled o (operator o.console)

-- The loop that inserts a tab behind each newline that it finds.
unfoldable pub indent_loop : ℕ → String → ℕ → Result String
indent_loop zero extra last_find = out_of_fuel
indent_loop (suc fuel) extra last_find = elim (find newline extra (last_find + 1)) [
  | none ↦ ok extra
  | some found ↦ indent_loop fuel (insert extra (found + 1) tab) found
]

module _ (show : ℕ → String) where
  unfoldable pub kind : ℕ → String
  kind level =
      if level == rl_fatal_errors
      then text "Fatal Error "
      else if level == rl_errors
      then text "Error "
      else if level == rl_warnings
      then text "Warning "
      else []

  unfoldable pub heading : ℕ → String → String
  unfolding kind
  heading level message =
      kind level ++ (text "Level " ++ (show level ++ (text ": " ++ (message ++ newline ∷ []))))

  unfoldable pub render : ℕ → String → String → Result String
  unfolding heading indent_loop
  render level message extra =
      if is_empty extra
      then ok (heading level message)
      else (indent_loop (length extra + 1) extra 0 >>= λ indented.
          ok (heading level message ++ (tab ∷ (indented ++ newline ∷ []))))

  -- The devices: of a text, how much a FILE takes and how much fflush gets into the file; whether the
  -- console accepts it; and what HandleLog answers.
  module _ (taken : (contents bytes : String) → ℕ) (reached : String → ℕ) (accepts : String → Bool)
      (handle_log : Entry → Result (Unit {0})) where
    unfoldable pub deliver_file : Annals → ℕ → String → Outputs → Outputs × Result (Unit {0})
    deliver_file a level rendered o =
        if leb a.file_level level
        then chain (file_put a (λ s. file.write_string taken s rendered) o)
            (file_put a (file.flush reached))
        else (o, ok tt)

    unfoldable pub deliver_console : Annals → ℕ → String → Outputs → Outputs × Result (Unit {0})
    deliver_console a level rendered o =
        if leb a.console_level level
        then chain (console_put (λ s. console.write_string accepts s rendered) o)
            (console_put (console.flush accepts))
        else (o, ok tt)

    -- What is done with the text, or with the loop that did not give one.
    abbrev pub deliver : Annals → ℕ → Outputs → Result String → Outputs × Result (Unit {0})
    deliver a level o (ok rendered) =
        chain (deliver_file a level rendered o) (deliver_console a level rendered)
    deliver a level o (throw e) = (o, throw e)
    deliver a level o abort = (o, abort)
    deliver a level o out_of_fuel = (o, out_of_fuel)

    unfoldable pub hand : Annals → Entry → Outputs → Outputs × Result (Unit {0})
    hand a entry o =
        if a.extra_ledger
        then (record o { handled = push_back o.handled entry }, handle_log entry)
        else (o, ok tt)

    unfoldable pub log : Annals → ℕ → String → String → Outputs → Outputs × Result (Unit {0})
    unfolding render hand deliver_file deliver_console
    log a level message extra o =
        chain (hand a (record { level = level; message = message; extra = extra }) o) (λ o'.
          if (a.console_level == rl_off) && (a.file_level == rl_off)
          then (o', ok tt)
          else deliver a level o' (render level message extra))

    unfoldable pub notify : Annals → String → String → Outputs → Outputs × Result (Unit {0})
    notify a message extra = log a 3 message extra

    unfoldable pub declare : Annals → String → Outputs → Outputs × Result (Unit {0})
    declare a message = log a 5 message []

    unfoldable pub warn : Annals → String → String → Outputs → Outputs × Result (Unit {0})
    warn a message extra = log a 6 message extra

    unfoldable pub error : Annals → String → String → Outputs → Outputs × Result (Unit {0})
    error a message extra = log a 7 message extra

    -- The result of a call that returns from Log is the status that the process exits with.
    unfoldable pub fatal : Annals → String → String → Outputs → Outputs × Result ℕ
    fatal a message extra o =
        let (o', result) = log a 8 message extra o in (o', result >>= λ _. ok 1)
