-- ===== src/Color.antt =====
-- color.cxx and color.h: Color. The other order of a number and a color is the same product.
pub mod Chain
pub mod Assign
pub mod Tests
use ren_general.Scalar.{Scalar}
use ren_general.Range.{mix}

module _ (s : Scalar) where
  pub record Color : Type 0 where
    pub red : s.F
    pub green : s.F
    pub blue : s.F
    pub alpha : s.F

  unfoldable pub white : Color
  white = record { red = s.ratio 1 1; green = s.ratio 1 1; blue = s.ratio 1 1; alpha = s.ratio 1 1 }

  -- The constructor from a color, with another alpha.
  unfoldable pub with_alpha : Color → s.F → Color
  with_alpha c new_alpha = record c { alpha = new_alpha }

  -- The constructor from two colors.
  unfoldable pub mixed : (mix_a mix_b : Color) → (percent : s.F) → Color
  mixed mix_a mix_b percent = record {
    red = mix s mix_a.red mix_b.red percent;
    green = mix s mix_a.green mix_b.green percent;
    blue = mix s mix_a.blue mix_b.blue percent;
    alpha = mix s mix_a.alpha mix_b.alpha percent;
  }

  -- An operation on the three parts but alpha.
  abbrev pub by_part : (s.F → s.F → s.F) → Color → Color → Color
  by_part op c d = record c {
    red = op c.red d.red;
    green = op c.green d.green;
    blue = op c.blue d.blue;
  }

  abbrev pub by_number : (s.F → s.F → s.F) → Color → s.F → Color
  by_number op c k = record c { red = op c.red k; green = op c.green k; blue = op c.blue k }

  unfoldable pub add : Color → Color → Color
  add c d = by_part s.add c d

  unfoldable pub sub : Color → Color → Color
  sub c d = by_part s.sub c d

  unfoldable pub mul : Color → Color → Color
  mul c d = by_part s.mul c d

  unfoldable pub div : Color → Color → Color
  div c d = by_part s.div c d

  unfoldable pub scale : Color → s.F → Color
  scale c k = by_number s.mul c k

  unfoldable pub div_scalar : Color → s.F → Color
  div_scalar c k = by_number s.div c k
