-- ===== src/InputOutput/Floats.antt =====
-- inputoutput.h and inputoutput.cxx: the printing of floats, in every stream, and of paths; and the
-- AsString methods of the values made of floats. How the C++ library prints a float is a parameter:
-- `show` with the flags of a stream, `show_digits` with a precision too, fixed or not, and
-- `show_fixed` as fprintf does for `%f`. A double is printed in the same way.
use ren_general.Base.{String, text, ℕ, Bool, true, false, List, [], ◌∷◌}
use ren_general.Exception.{Result}
use ren_general.Scalar.{Scalar}
use ren_general.Scalar.Exact.{ℤ, pos, negsuc}
use ren_general.Filesystem.Path.{PathBase, absolute_string}
use ren_general.InputOutput.Format.{Format, default_format}
use ren_general.InputOutput.Memory.{MemoryStream, insert, new, write_string, as_string}
use ren_general.InputOutput.Standard as standard
use ren_general.InputOutput.Standard.Errors as errors
use ren_general.InputOutput.File as file
use ren_general.Vector.{Vector}
use ren_general.Vector.Flat.{FlatVector}
use ren_general.Region.{Region}
use ren_general.Color.{Color}
use ren_general.Range.{Range}

-- OutputStream, of a stream that writes strings: a path is printed as its absolute text.
unfoldable pub write_path : {S R : Type 0} → (write : S → String → R) → S → PathBase → R
write_path write s p = write s (absolute_string p)

module _ (s : Scalar) where
  pub record FloatToken : Type 0 where
    pub value : s.F
    pub fractional_count : ℤ
    pub is_exact : Bool

  -- OutputStream::Float, FractionalDigits and MaxFractionalDigits.
  unfoldable pub float_token : s.F → FloatToken
  float_token x = record { value = x; fractional_count = negsuc 0; is_exact = true }

  unfoldable pub fractional_digits : FloatToken → ℕ → FloatToken
  fractional_digits t digits = record t { fractional_count = pos digits; is_exact = true }

  unfoldable pub max_fractional_digits : FloatToken → ℕ → FloatToken
  max_fractional_digits t digits = record t { fractional_count = pos digits; is_exact = false }

  module _ (show : Format → s.F → String) (show_digits : (fixed : Bool) → ℕ → s.F → String)
      (show_fixed : s.F → String) where
    -- What the stringstream holds in the end.
    abbrev pub token_text : Bool → ℤ → s.F → String
    token_text is_exact (negsuc n) x = show default_format x
    token_text is_exact (pos digits) x = show_digits is_exact digits x

    unfoldable pub write_token : {S R : Type 0} → (write : S → String → R) → S → FloatToken → R
    write_token write o t = write o (token_text t.is_exact t.fractional_count t.value)

    unfoldable pub memory_write_float : MemoryStream → s.F → MemoryStream
    memory_write_float m x = insert m (show m.format x)

    unfoldable pub standard_write_float :
        (accepts : String → Bool) → standard.StandardStream → s.F → Result standard.StandardStream
    standard_write_float accepts o x = standard.written accepts o (λ m. memory_write_float m x)

    unfoldable pub error_write_float :
        (accepts : String → Bool)
        → errors.StandardErrorStream
        → s.F
        → Result errors.StandardErrorStream
    error_write_float accepts o x = errors.written accepts o (λ m. memory_write_float m x)

    unfoldable pub file_write_float :
        (taken : String → String → ℕ) → file.Stream → s.F → file.Stream × Result (Unit {0})
    file_write_float taken o x = file.printed taken o (show_fixed x)

    -- What is put into a MemoryStream in turn.
    pub data Piece : Type 0 where
      literal : String → Piece
      number : s.F → Piece

    unfoldable pub print : MemoryStream → List Piece → MemoryStream
    unfolding memory_write_float
    print m [] = m
    print m (literal t ∷ ps) = print (write_string m t) ps
    print m (number x ∷ ps) = print (memory_write_float m x) ps

    abbrev pub printed_text : List Piece → String
    printed_text ps = as_string (print new ps)

    unfoldable pub range_as_string : Range s → String
    range_as_string r = printed_text (
        literal (text "[")
        ∷ number r.min
        ∷ literal (text ", ")
        ∷ number r.max
        ∷ literal (text "]")
        ∷ [])

    unfoldable pub color_as_string : Color s → String
    color_as_string c = printed_text (
        literal (text "(C ")
        ∷ number c.red
        ∷ literal (text ", ")
        ∷ number c.green
        ∷ literal (text ", ")
        ∷ number c.blue
        ∷ literal (text ", ")
        ∷ number c.alpha
        ∷ literal (text ")")
        ∷ [])

    module _ (finite : s.F → Bool) (sqrt : s.F → s.F) where
      unfoldable pub vector_as_string : Vector s finite sqrt → String
      vector_as_string v = printed_text (
          literal (text "(")
          ∷ number v.data_0
          ∷ literal (text ", ")
          ∷ number v.data_1
          ∷ literal (text ", ")
          ∷ number v.data_2
          ∷ literal (text ")")
          ∷ [])

      unfoldable pub flat_vector_as_string : FlatVector s finite sqrt → String
      flat_vector_as_string v = printed_text (
          literal (text "(")
          ∷ number v.data_0
          ∷ literal (text ", ")
          ∷ number v.data_1
          ∷ literal (text ")")
          ∷ [])

      unfoldable pub region_as_string : Region s finite sqrt → String
      region_as_string r = printed_text (
          literal (text "(")
          ∷ number r.start.data_0
          ∷ literal (text ", ")
          ∷ number r.start.data_1
          ∷ literal (text " to ")
          ∷ number (s.add r.start.data_0 r.size.data_0)
          ∷ literal (text ", ")
          ∷ number (s.add r.start.data_1 r.size.data_1)
          ∷ literal (text " size ")
          ∷ number r.size.data_0
          ∷ literal (text "x")
          ∷ number r.size.data_1
          ∷ literal (text ")")
          ∷ [])
