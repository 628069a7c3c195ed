-- ===== src/Annals/Delivery.antt =====
-- What becomes of a message whose level is that of the file or above.
use ren_general.Base.{String, ℕ, Bool, some, [], ◌∷◌, ◌++◌, if◌then◌else◌, is_empty, push_back}
use ren_general.Exception.{Result}
use ren_general.InputOutput.File.{Stream, set}
use ren_general.InputOutput.Memory
use ren_general.InputOutput.Standard as console
use ren_general.Annals.{newline, tab, Entry, Annals, Outputs, heading}
use ren_general.Annals.Indent.{indent_rest}

module _ (show : ℕ → String) where
  -- The text of a message: the heading, and under it the indented extra text if there is any.
  unfoldable pub rendered : ℕ → String → String → String
  rendered level message extra =
      if is_empty extra
      then heading show level message
      else heading show level message ++ (tab ∷ (indent_rest extra ++ newline ∷ []))

-- The outputs with another stream at the address.
abbrev with_stream : Outputs → ℕ → Stream → Outputs
with_stream o p s = record o { files = record o.files { streams = set o.files.streams p (some s) } }

module _ (show : ℕ → String) (taken : (contents bytes : String) → ℕ) (reached : String → ℕ)
    (accepts : String → Bool) (handle_log : Entry → Result (Unit {0})) where
  -- The outputs when the extra ledger, if there is one, has the message.
  abbrev pub with_message : Annals → Entry → Outputs → Outputs
  with_message a entry o = record o {
    handled = if a.extra_ledger then push_back o.handled entry else o.handled;
  }
