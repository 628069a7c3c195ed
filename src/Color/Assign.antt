-- ===== src/Color/Assign.antt =====
-- color.cxx: the assignments of Color, which change the three parts but alpha. Each gives the color
-- as it is after it.
use ren_general.Scalar.{Scalar}
use ren_general.Color.{Color}

module _ (s : Scalar) where
  unfoldable pub add_assign : Color s → Color s → Color s
  add_assign c operand = record c {
    red = s.add c.red operand.red;
    green = s.add c.green operand.green;
    blue = s.add c.blue operand.blue;
  }

  unfoldable pub sub_assign : Color s → Color s → Color s
  sub_assign c operand = record c {
    red = s.sub c.red operand.red;
    green = s.sub c.green operand.green;
    blue = s.sub c.blue operand.blue;
  }

  unfoldable pub scale_assign : Color s → s.F → Color s
  scale_assign c operand = record c {
    red = s.mul c.red operand;
    green = s.mul c.green operand;
    blue = s.mul c.blue operand;
  }

  unfoldable pub mul_assign : Color s → Color s → Color s
  mul_assign c operand = record c {
    red = s.mul c.red operand.red;
    green = s.mul c.green operand.green;
    blue = s.mul c.blue operand.blue;
  }

  unfoldable pub div_number_assign : Color s → s.F → Color s
  div_number_assign c operand = record c {
    red = s.div c.red operand;
    green = s.div c.green operand;
    blue = s.div c.blue operand;
  }

  unfoldable pub div_color_assign : Color s → Color s → Color s
  div_color_assign c operand = record c {
    red = s.div c.red operand.red;
    green = s.div c.green operand.green;
    blue = s.div c.blue operand.blue;
  }
