-- ===== src/InputOutput/Standard/Failure.antt =====
-- The operators of StandardStream, one by one and in sequences, on a device that may fail.
use ren_general.Base.{
  String, text, ℕ, zero, suc, ◌-◌, ◌<◌, ◌≡◌, refl, ap, ◌∙◌, ◌⊎◌, inl, inr, Bool, true, false, ◌&&◌,
  List, [], ◌∷◌, arith, length, take, Bool-cases,
}
use ren_general.Exception.{system, Result, ok, throw, abort, out_of_fuel}
use ren_general.Scalar.Exact.{ℤ}
use ren_general.InputOutput.Memory
use ren_general.InputOutput.Memory.{MemoryStream, good}
use ren_general.InputOutput.Standard.{
  StandardStream, check_output, settle, flush, write_raw, write_int, write_long, write_unsigned,
  write_string, write_hex,
}

-- The calls of the operators of StandardStream that write.
pub data Output : Type 0 where
  flushed : Output
  raw : String → Output
  int : ℤ → Output
  long : ℤ → Output
  unsigned : ℕ → Output
  string : String → Output
  hex : List ℕ → Output

module _ (accepts : String → Bool) where
  abbrev pub put : Output → StandardStream → Result StandardStream
  put flushed s = flush accepts s
  put (raw bytes) s = write_raw accepts s bytes
  put (int n) s = write_int accepts s n
  put (long n) s = write_long accepts s n
  put (unsigned n) s = write_unsigned accepts s n
  put (string bytes) s = write_string accepts s bytes
  put (hex bytes) s = write_hex accepts s bytes

  -- The calls in their order, up to the first that throws: the streams then, and how many were made.
  abbrev pub put_all : List Output → StandardStream → StandardStream × ℕ
  put_all [] s = (s, 0)
  put_all (o ∷ os) s = elim (put o s) as (λ _. StandardStream × ℕ) [
    | ok s' ↦ let (t, n) = put_all os s' in (t, suc n)
    | throw e ↦ (s, 0)
    | abort ↦ (s, 0)
    | out_of_fuel ↦ (s, 0)
  ]

-- What an operator does to std::cout when it finds it good.
abbrev pub effect : Output → MemoryStream → MemoryStream
effect flushed m = m
effect (raw bytes) m = Memory.write_raw m bytes
effect (int n) m = Memory.write_int m n
effect (long n) m = Memory.write_long m n
effect (unsigned n) m = Memory.write_unsigned m n
effect (string bytes) m = Memory.write_string m bytes
effect (hex bytes) m = Memory.write_hex m bytes

abbrev pub effects : List Output → MemoryStream → MemoryStream
effects [] m = m
effects (o ∷ os) m = effects os (effect o m)

write_raw-good :
    (m : MemoryStream) (s : String) → good m ≡ true → good (Memory.write_raw m s) ≡ true
unfolding good Memory.write_raw
write_raw-good m s g = rw g g

insert-good : (m : MemoryStream) (s : String) → good m ≡ true → good (Memory.insert m s) ≡ true
unfolding good Memory.write_raw
insert-good m s g = rw (g, g) refl

write_hex-good :
    (m : MemoryStream) (bytes : List ℕ) → good m ≡ true → good (Memory.write_hex m bytes) ≡ true
unfolding good Memory.write_raw Memory.write_hex
write_hex-good m bytes g = rw (g, g) refl

pub effect-good : (o : Output) (m : MemoryStream) → good m ≡ true → good (effect o m) ≡ true
unfolding Memory.write_int Memory.write_long Memory.write_unsigned Memory.write_string
effect-good flushed m g = g
effect-good (raw bytes) m g = write_raw-good m bytes g
effect-good (int n) m g = insert-good m _ g
effect-good (long n) m g = insert-good m _ g
effect-good (unsigned n) m g = insert-good m _ g
effect-good (string bytes) m g = insert-good m _ g
effect-good (hex bytes) m g = write_hex-good m bytes g

module _ (accepts : String → Bool) where
  pub put-good :
      (o : Output) (s : StandardStream)
      → good s.output ≡ true
      → put accepts o s ≡ ok (record s { output = settle accepts (effect o s.output) })
  unfolding check_output flush write_raw write_int write_long write_unsigned write_string write_hex
  put-good flushed s g = rw g refl
  put-good (raw bytes) s g = rw g refl
  put-good (int n) s g = rw g refl
  put-good (long n) s g = rw g refl
  put-good (unsigned n) s g = rw g refl
  put-good (string bytes) s g = rw g refl
  put-good (hex bytes) s g = rw g refl

  -- Every operator that writes to StandardStream throws when std::cout is not good.
  pub put-throw :
      (o : Output) (s : StandardStream)
      → good s.output ≡ false
      → put accepts o s ≡ throw (system (text "Standard output has failed!"))
  unfolding check_output flush write_raw write_int write_long write_unsigned write_string write_hex
  put-throw flushed s g = rw g refl
  put-throw (raw bytes) s g = rw g refl
  put-throw (int n) s g = rw g refl
  put-throw (long n) s g = rw g refl
  put-throw (unsigned n) s g = rw g refl
  put-throw (string bytes) s g = rw g refl
  put-throw (hex bytes) s g = rw g refl

  -- Whether the device accepts what is written after each of the calls.
  abbrev pub all_accepted : List Output → MemoryStream → Bool
  all_accepted [] m = true
  all_accepted (o ∷ os) m = accepts (effect o m).buffer && all_accepted os (effect o m)

  pred_suc : (n : ℕ) → suc n - 1 ≡ n
  pred_suc n = omega arith

  all_accepted-take :
      (o : Output) (os : List Output) (m : MemoryStream) (n : ℕ)
      → accepts (effect o m).buffer ≡ true
      → all_accepted (take (n - 1) os) (effect o m) ≡ true
      → all_accepted (take n (o ∷ os)) m ≡ true
  all_accepted-take o os m zero a h = refl
  all_accepted-take o os m (suc n) a h = rw a (rw pred_suc at h)

  -- What the device does with a stream that is good.
  abbrev Settled : MemoryStream → Type 0
  Settled m =
      ((settle accepts m ≡ m) × (accepts m.buffer ≡ true))
      ⊎ ((good (settle accepts m) ≡ false)
          × (accepts m.buffer ≡ false)
          × ((settle accepts m).buffer ≡ m.buffer))

  settle-Settled : (m : MemoryStream) → good m ≡ true → Settled m
  unfolding good
  settle-Settled m g = elim (Bool-cases (accepts m.buffer)) [
    | inl e ↦ inl (rw e refl, e)
    | inr e ↦ inr (rw e (ground arith), e, rw e refl)
  ]

  put_all-failed :
      (os : List Output) (s : StandardStream)
      → good s.output ≡ false
      → put_all accepts os s ≡ (s, 0)
  put_all-failed [] s g = refl
  put_all-failed (o ∷ os) s g = rw (put_all, put-throw o s g) refl

  -- How far calls on a stream came.
  abbrev pub Ended : List Output → MemoryStream → StandardStream × ℕ → Type 0
  Ended os m (t, n) =
      (t.output.buffer ≡ (effects (take n os) m).buffer)
      × (all_accepted (take (n - 1) os) m ≡ true)
      × ((n ≡ length os)
          ⊎ ((n < length os) × (good t.output ≡ false) × (accepts t.output.buffer ≡ false)))

  one_more :
      (o : Output) (os : List Output) (m : MemoryStream) (r : StandardStream × ℕ)
      → accepts (effect o m).buffer ≡ true
      → Ended os (effect o m) r
      → Ended (o ∷ os) m (r.0, suc r.1)
  one_more o os m r a (same, accepted, inl e) =
      (same, rw pred_suc (all_accepted-take o os m r.1 a accepted), inl (ap suc e))
  one_more o os m r a (same, accepted, inr (less, failed, refused)) = (
    same,
    rw pred_suc (all_accepted-take o os m r.1 a accepted),
    inr (omega arith, failed, refused),
  )

  refused_next :
      (o : Output) (os : List Output) (m : MemoryStream) (t : StandardStream)
      → good t.output ≡ false
      → accepts t.output.buffer ≡ false
      → t.output.buffer ≡ (effect o m).buffer
      → Ended (o ∷ os) m (t, 1)
  refused_next o [] m t failed refused same = (same, refl, inl refl)
  refused_next o (o' ∷ os) m t failed refused same =
      (same, refl, inr (omega arith, failed, refused))

  -- Of a sequence of calls that begins with std::cout good a first part is carried out: the text that
  -- is then in std::cout is what the operators of this part write to a MemoryStream in turn, and the
  -- device accepted it after each of them but the last. The part is the whole sequence, unless the
  -- device refused the text after the last call of it, and then std::cout is not good.
  pub put_all-cases :
      (os : List Output) (s : StandardStream)
      → good s.output ≡ true
      → Ended os s.output (put_all accepts os s)
  put_all-cases [] s g = (refl, refl, inl refl)
  put_all-cases (o ∷ os) s g =
      let written = effect o s.output in
      let first = put-good o s g in
      let g' = effect-good o s.output g in
      elim (settle-Settled written g') [
        | inl (same, accepted) ↦
            let s' : StandardStream = record s { output = written } in
            rw (put_all, first, same)
              (one_more o os s.output (put_all accepts os s') accepted (put_all-cases os s' g'))
        | inr (failed, refused, same) ↦
            let s' : StandardStream = record s { output = settle accepts written } in
            let refused' : accepts s'.output.buffer ≡ false = ap accepts same ∙ refused in
            rw (put_all, first, put_all-failed os s' failed)
              (refused_next o os s.output s' failed refused' same)
      ]
