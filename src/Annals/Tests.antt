-- ===== src/Annals/Tests.antt =====
-- A log with a ledger, and the theorems at its messages.
use ren_general.Base.{
  String, ℕ, ◌+◌, ◌≡◌, Bool, true, false, some, none, [], ◌∷◌, ◌==◌, arith, text, length,
  if◌then◌else◌,
}
use ren_general.Exception.{Result, ok}
use ren_general.Filesystem.Path.{path}
use ren_general.InputOutput.Memory
use ren_general.InputOutput.Memory.{new}
use ren_general.InputOutput.File.{Stream}
use ren_general.Annals.{Entry, Annals, Outputs, newline, indent_loop}
use ren_general.Annals.Indent.{indent_rest, indent_loop-indent_rest}

-- One digit is enough for the levels.
abbrev digit : ℕ → String
digit n = (n + 48) ∷ []

abbrev annals : Annals
annals = record {
  file_level = 5;
  console_level = 6;
  default_location = path (text "log" ∷ []);
  file_output = record { file = some 4 };
  extra_ledger = true;
}

abbrev log_stream : Stream
log_stream = record {
  filename = text "/log";
  contents = text "old";
  in_file = text "old";
  eof = false;
  error = false;
}

abbrev outputs : Outputs
outputs = record {
  files = record { next = 5; streams = λ a. if a == 4 then some log_stream else none };
  console = record { output = new; input = new };
  handled = [];
}

-- A FILE that takes two bytes of every text, and one that takes all; a console that accepts all; a
-- ledger that handles all.
abbrev two_bytes : String → String → ℕ
two_bytes contents bytes = 2

abbrev all_bytes : String → String → ℕ
all_bytes contents bytes = length bytes

abbrev any_text : String → Bool
any_text t = true

abbrev handles : Entry → Result (Unit {0})
handles e = ok tt

abbrev entry : Entry
entry = record { level = 6; message = text "m"; extra = [] }

indent_loop-indent_rest_example :
    indent_loop 4 (newline ∷ 65 ∷ newline ∷ []) 0 ≡ ok (newline ∷ 65 ∷ newline ∷ 9 ∷ [])
unfolding indent_rest
indent_loop-indent_rest_example =
    indent_loop-indent_rest (newline ∷ 65 ∷ newline ∷ []) 4 (omega arith)
