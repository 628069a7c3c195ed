-- ===== src/Vector/Flat/Assign.antt =====
-- vector.cxx: the assignments and the copies of FlatVector. Each gives the new vector, which is also what
-- the source returns; where an assertion fails, the vector is not assigned.
use ren_general.Base.{Bool}
use ren_general.Exception.{Result}
use ren_general.Scalar.{Scalar}
use ren_general.Vector.Flat.{FlatVector, add, sub, mul, div, div_scalar, length, flat_vector}
use ren_general.Vector.{Vector}

module _ (s : Scalar) (finite : s.F → Bool) (sqrt : s.F → s.F) where
  -- The copy constructor.
  unfoldable pub copy : FlatVector s finite sqrt → FlatVector s finite sqrt
  copy operand = operand

  unfoldable pub add_assign :
      FlatVector s finite sqrt → FlatVector s finite sqrt → Result (FlatVector s finite sqrt)
  add_assign v operand = add s finite sqrt v operand

  unfoldable pub sub_assign :
      FlatVector s finite sqrt → FlatVector s finite sqrt → Result (FlatVector s finite sqrt)
  sub_assign v operand = sub s finite sqrt v operand

  unfoldable pub mul_assign :
      FlatVector s finite sqrt → FlatVector s finite sqrt → Result (FlatVector s finite sqrt)
  mul_assign v operand = mul s finite sqrt v operand

  unfoldable pub div_vector_assign :
      FlatVector s finite sqrt → FlatVector s finite sqrt → Result (FlatVector s finite sqrt)
  div_vector_assign v operand = div s finite sqrt v operand

  unfoldable pub normalize : FlatVector s finite sqrt → Result (FlatVector s finite sqrt)
  normalize v = div_scalar s finite sqrt v (length s finite sqrt v)

  -- The constructor from a Vector, which drops its third coordinate.
  unfoldable pub from_vector : Vector s finite sqrt → FlatVector s finite sqrt
  from_vector operand = record { data_0 = operand.data_0; data_1 = operand.data_1 }

  -- Integer; `truncate` is the conversion to int and back, whose result for a value outside int is
  -- undefined.
  unfoldable pub integer :
      (truncate : s.F → s.F) → FlatVector s finite sqrt → Result (FlatVector s finite sqrt)
  integer truncate v = flat_vector s finite sqrt (truncate v.data_0) (truncate v.data_1)
