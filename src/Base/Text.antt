-- ===== src/Base/Text.antt =====
-- std::string as its list of bytes.
use Prim.Native.Nat.{ℕ, suc, ◌+◌}
use Prim.Native.Char.{code}
use Prim.Native.String.{String as Literal}
use mathlib.Core.Path.{◌≡◌, refl}
use mathlib.Core.Logic.{◌↔◌}
use mathlib.Core.Bool.{Bool, true, false, ◌&&◌}
use mathlib.Core.Option
use mathlib.Core.Option.{Option, none, some}
use mathlib.Core.List.{List, [], ◌∷◌, ◌++◌}
use native.Mathlib.Omega.{arith}
use ren_general.Base.Tests.{◌==◌, if◌then◌else◌}
use ren_general.Base.Lists.{take, drop}

abbrev pub String : Type 0
String = List ℕ

-- The bytes of an ASCII literal.
abbrev pub text : Literal → List ℕ
text Literal.[] = []
text (Literal.◌∷◌ c s) = code c ∷ text s

abbrev pub str_eq : List ℕ → List ℕ → Bool
str_eq [] [] = true
str_eq [] (y ∷ ys) = false
str_eq (x ∷ xs) [] = false
str_eq (x ∷ xs) (y ∷ ys) = (x == y) && str_eq xs ys

pub str_eq→eq : (xs ys : List ℕ) → str_eq xs ys ≡ true → xs ≡ ys
str_eq→eq [] [] h = refl
str_eq→eq [] (y ∷ ys) h = cc
str_eq→eq (x ∷ xs) [] h = cc
str_eq→eq (x ∷ xs) (y ∷ ys) h = ground (arith, str_eq→eq xs ys)

pub str_eq_refl : (xs : List ℕ) → str_eq xs xs ≡ true
str_eq_refl [] = refl
str_eq_refl (x ∷ xs) = ground (arith, str_eq_refl xs)

pub str_eq_iff : (xs ys : List ℕ) → (str_eq xs ys ≡ true) ↔ (xs ≡ ys)
str_eq_iff xs ys = (str_eq→eq xs ys, λ e. ground (arith, str_eq_refl xs))

-- std::string::find of one character, from a position; `none` is npos.
abbrev pub index_of : ℕ → List ℕ → Option ℕ
index_of c [] = none
index_of c (x ∷ xs) = if x == c then some 0 else Option.map suc (index_of c xs)

abbrev pub find : ℕ → List ℕ → ℕ → Option ℕ
find c s from = Option.map (λ k. from + k) (index_of c (drop from s))

-- std::string::insert of one character.
abbrev pub insert : List ℕ → ℕ → ℕ → List ℕ
insert s at c = take at s ++ c ∷ drop at s
