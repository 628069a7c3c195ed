-- ===== src/InputOutput/File/Ownership.antt =====
-- Which FILEs are open once objects of FileOutput were moved, assigned and destructed.
use ren_general.Base.{ℕ, ◌≡◌, refl, ap, ◌∙◌, ◌≢◌, none, some, arith, ==_refl}
use ren_general.Exception.{Result, ok, ◌>>=◌}
use ren_general.InputOutput.File.{FileOutput, Files, Stream, assign, destruct, move, set}

-- Destructing an object with an open FILE.
destruct-open :
    (w : Files) (this : FileOutput) (address : ℕ) (s : Stream)
    → this.file ≡ some address
    → w.streams address ≡ some s
    → destruct w this ≡ ok (record w { streams = set w.streams address none })
unfolding destruct
destruct-open w this address s e h = rw (destruct, e, h) refl

destruct-none : (w : Files) (this : FileOutput) → this.file ≡ none → destruct w this ≡ ok w
unfolding destruct
destruct-none w this e = rw e refl

-- After the move constructor the FILE of the object is closed once, by whichever of the two objects
-- is destructed first, and without a failure.
pub destruct-move :
    (w : Files) (other : FileOutput) (address : ℕ) (s : Stream)
    → other.file ≡ some address
    → w.streams address ≡ some s
    → let (this, other') = move other in
      let closed : Files = record w { streams = set w.streams address none } in
      ((destruct w this >>= λ w'. destruct w' other') ≡ ok closed)
      × ((destruct w other' >>= λ w'. destruct w' this) ≡ ok closed)
unfolding move
destruct-move w other address s e h =
    let this : FileOutput = record { file = other.file } in
    let other' : FileOutput = record { file = none } in
    let closed : Files = record w { streams = set w.streams address none } in
    (
      ap (λ r. r >>= λ w'. destruct w' other') (destruct-open w this address s e h)
          ∙ destruct-none closed other' refl,
      ap (λ r. r >>= λ w'. destruct w' this) (destruct-none w other' refl)
          ∙ destruct-open w this address s e h,
    )

-- Assigning to an object that holds an open FILE leaks it: once both objects were destructed, the FILE
-- of the other is closed, and that of the object assigned to is still open.
pub destruct-assign :
    (w : Files) (this other : FileOutput) (a b : ℕ) (s t : Stream)
    → this.file ≡ some a
    → other.file ≡ some b
    → a ≢ b
    → w.streams a ≡ some s
    → w.streams b ≡ some t
    → let (this', other') = assign this other in
      let after : Result Files = destruct w this' >>= λ w'. destruct w' other' in
      (w' : Files) × (after ≡ ok w') × (w'.streams b ≡ none) × (w'.streams a ≡ some s)
unfolding assign
destruct-assign w this other a b s t e f n h k =
    let this' : FileOutput = record this { file = other.file } in
    let other' : FileOutput = record other { file = none } in
    let closed : Files = record w { streams = set w.streams b none } in
    (
      closed,
      ap (λ r. r >>= λ w'. destruct w' other') (destruct-open w this' b t f k)
          ∙ destruct-none closed other' refl,
      rw (==_refl b) refl,
      ground (arith, n, h),
    )
