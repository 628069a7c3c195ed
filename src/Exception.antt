-- ===== src/Exception.antt =====
-- exception.h and exception.cxx: the classes that the program throws, each with its explanation.
-- `Result` is what a call comes to: a value, one of these thrown, an assertion that failed, or (in
-- the model only) loop fuel that ran out.
use mathlib.Core.Path.{subst}
use ren_general.Base.{String, ◌≡◌, refl, Bool, true, false}

pub data Error : Type 0 where
  construction : String → Error
  input : String → Error
  system : String → Error

pub data Result {ℓ} (A : Type ℓ) : Type ℓ where
  ok : A → Result A
  throw : Error → Result A
  abort : Result A
  out_of_fuel : Result A

infixl 5 ◌>>=◌ ◌>>◌
abbrev pub ◌>>=◌ {ℓ κ} : {A : Type ℓ} {B : Type κ} → Result A → (A → Result B) → Result B
ok a >>= f = f a
throw e >>= f = throw e
abort >>= f = abort
out_of_fuel >>= f = out_of_fuel

abbrev pub ◌>>◌ {ℓ} : {B : Type ℓ} → Result (Unit {0}) → Result B → Result B
m >> k = m >>= λ _. k

abbrev pub assert : Bool → Result (Unit {0})
assert true = ok tt
assert false = abort

-- Bind is associative.
pub >>=_assoc {ℓ κ} :
    {A : Type ℓ} {B C : Type κ} (m : Result A) (f : A → Result B) (g : B → Result C)
    → ((m >>= f) >>= g) ≡ (m >>= λ a. f a >>= g)
>>=_assoc (ok a) f g = refl
>>=_assoc (throw e) f g = refl
>>=_assoc abort f g = refl
>>=_assoc out_of_fuel f g = refl

-- A postcondition of the value, if there is one.
abbrev pub IfOk {ℓ κ} : {A : Type ℓ} → (A → Type κ) → Result A → Type κ
IfOk P (ok a) = P a
IfOk P (throw e) = Unit
IfOk P abort = Unit
IfOk P out_of_fuel = Unit

pub IfOk-bind {ℓ κ} :
    {A B : Type ℓ} (P : A → Type κ) (Q : B → Type κ) (r : Result A) (f : A → Result B)
    → IfOk P r
    → ((a : A) → P a → IfOk Q (f a))
    → IfOk Q (r >>= f)
IfOk-bind P Q (ok a) f h k = k a h
IfOk-bind P Q (throw e) f h k = tt
IfOk-bind P Q abort f h k = tt
IfOk-bind P Q out_of_fuel f h k = tt

pub IfOk-ok {ℓ κ} : {A : Type ℓ} (P : A → Type κ) {r : Result A} {a : A} → IfOk P r → r ≡ ok a → P a
IfOk-ok P h e = subst (IfOk P) e h

pub IfOk-assert {κ} :
    {B : Type 0} (Q : B → Type κ) (b : Bool) (k : Result B)
    → (b ≡ true → IfOk Q k)
    → IfOk Q (assert b >> k)
IfOk-assert Q true k h = h refl
IfOk-assert Q false k h = tt
