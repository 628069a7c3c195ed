-- ===== src/InputOutput/File/Input.antt =====
-- inputoutput.cxx: FileInput, as built for a system that is not Windows, and its reading of lines.
-- What `fgets` does to a FILE is written out; whether errno is EINVAL behind an `fgets` that gave
-- nothing is a parameter.
pub mod Lines
pub mod RoundTrip
use ren_general.Base.{
  String, text, ℕ, zero, suc, ◌+◌, ◌-◌, ◌*◌, Bool, true, false, not, ◌&&◌, ◌||◌, Option, none, some,
  List, [], ◌∷◌, ◌++◌, ◌==◌, ltb, if◌then◌else◌, length, take, drop, is_empty,
}
use ren_general.Exception.{Error, system, Result, ok, throw, out_of_fuel}

-- A FILE that is read: what is left of it, its states, and whether the device fails.
pub record Source : Type 0 where
  pub rest : String
  pub eof : Bool
  pub error : Bool
  pub failing : Bool

-- The constructor, on what `fopen(…, "rb")` gives.
unfoldable pub new : (fopen : String → String → Option Source) → String → Result Source
new fopen filename = elim (fopen filename (text "rb")) [
  | none ↦ throw (system (text "Couldn't open file " ++ filename))
  | some source ↦ ok source
]

-- The bytes that `fgets` takes of a text into room for so many.
abbrev pub fgets_text : ℕ → String → String
fgets_text zero s = []
fgets_text (suc room) [] = []
fgets_text (suc room) (c ∷ cs) = let more = fgets_text room cs in c ∷ (if c == 10 then [] else more)

-- Whether it comes to the end of the text doing so.
abbrev pub fgets_ends : ℕ → String → Bool
fgets_ends zero s = false
fgets_ends (suc room) [] = true
fgets_ends (suc room) (c ∷ cs) = let more = fgets_ends room cs in if c == 10 then false else more

-- `fgets` into a buffer of a size: what is in the buffer, or nothing.
unfoldable pub fgets : ℕ → Source → Source × Option String
fgets size f =
    let taken = fgets_text (size - 1) f.rest in
    let f' : Source = record f {
      rest = drop (length taken) f.rest;
      eof = f.eof || fgets_ends (size - 1) f.rest;
    } in
    if f.failing
    then (record f { error = true }, none)
    else if f.eof || is_empty taken
    then (f', none)
    else (f', some taken)

abbrev pub ends_line : ℕ → Bool
ends_line c = c == 13 || c == 10 || c == 0

-- What the loop over the buffer leaves of it as a string: the buffer has a 0 behind the text.
abbrev pub cut : String → String
cut [] = []
cut (c ∷ cs) = let rest = cut cs in if ends_line c then [] else c ∷ rest

module _ (einval : Source → Bool) where
  -- What a turn of the loop does with what `fgets` gave, and whether there is another turn.
  abbrev pub line_step :
      ℕ
      → String
      → (again : Source → Result (Source × String)) → Source × Option String
      → Result (Source × String)
  line_step size before again (f, some taken) = ok (f, cut (take (size - 1) taken))
  line_step size before again (f, none) = if not (einval f) then ok (f, before) else again f

  unfoldable pub read_line_loop : ℕ → ℕ → Source → String → Result (Source × String)
  unfolding fgets
  read_line_loop zero size f before = out_of_fuel
  read_line_loop (suc fuel) size f before =
      let again : Source → Result (Source × String) =
        λ f'. read_line_loop fuel (size * 2) f' before in
      let turn = line_step size before again (fgets size f) in
      if ltb size (1024 * 1024 * 10) then turn else ok (f, before)

  -- The size is doubled 12 times at most.
  unfoldable pub read_line : Source → (data_before : String) → Result (Source × String)
  unfolding read_line_loop
  read_line f data_before = read_line_loop 13 (1024 * 4) f data_before

-- `fread` of one object of a size.
unfoldable pub fread : ℕ → Source → (Source × String) × ℕ
fread size f =
    let taken = take size f.rest in
    let short = ltb (length taken) size in
    if size == 0 || (f.eof && not f.failing)
    then ((f, []), 0)
    else if f.failing
    then ((record f { error = true }, []), 0)
    else (
      (record f { rest = drop size f.rest; eof = f.eof || short }, taken),
      if short then 0 else 1,
    )

-- Reading bytes: the messages are those of writing.
unfoldable pub read_raw : Source → ℕ → (Source × String) × Result (Unit {0})
unfolding fread
read_raw f n =
    let ((f', taken), result) = fread n f in
    (
      (f', taken),
      if result == 0
          then (if f'.error
              then throw (system (text "Encountered error while writing; write failed."))
              else if f'.eof
              then throw (system (text "Received end-of-file while writing; write failed."))
              else ok tt)
          else ok tt,
    )

-- `operator bool`.
unfoldable pub is_good : Source → Bool
is_good f = not f.eof && not f.error
