-- ===== src/Vector/Assign.antt =====
-- vector.cxx: the assignments and the copies of Vector. Each gives the new vector, which is also what
-- the source returns; where an assertion fails, the vector is not assigned.
use ren_general.Base.{Bool}
use ren_general.Exception.{Result}
use ren_general.Scalar.{Scalar}
use ren_general.Vector.{Vector, add, sub, mul, div, div_scalar, length}

module _ (s : Scalar) (finite : s.F → Bool) (sqrt : s.F → s.F) where
  -- The copy constructor.
  unfoldable pub copy : Vector s finite sqrt → Vector s finite sqrt
  copy operand = operand

  unfoldable pub add_assign :
      Vector s finite sqrt → Vector s finite sqrt → Result (Vector s finite sqrt)
  add_assign v operand = add s finite sqrt v operand

  unfoldable pub sub_assign :
      Vector s finite sqrt → Vector s finite sqrt → Result (Vector s finite sqrt)
  sub_assign v operand = sub s finite sqrt v operand

  unfoldable pub mul_assign :
      Vector s finite sqrt → Vector s finite sqrt → Result (Vector s finite sqrt)
  mul_assign v operand = mul s finite sqrt v operand

  unfoldable pub div_vector_assign :
      Vector s finite sqrt → Vector s finite sqrt → Result (Vector s finite sqrt)
  div_vector_assign v operand = div s finite sqrt v operand

  unfoldable pub normalize : Vector s finite sqrt → Result (Vector s finite sqrt)
  normalize v = div_scalar s finite sqrt v (length s finite sqrt v)
