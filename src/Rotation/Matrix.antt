-- ===== src/Rotation/Matrix.antt =====
-- rotation.cxx: Matrix, whose elements stand in columns. The loop of assertions over the elements
-- is one assertion of all of them.
pub mod Transpose
use ren_general.Base.{ℕ, zero, suc, Bool, true, false, ◌&&◌, List, [], ◌∷◌}
use ren_general.Exception.{Result, ok, ◌>>=◌, ◌>>◌, assert}
use ren_general.Scalar.{Scalar}
use ren_general.Vector
use ren_general.Vector.{Vector}
use ren_general.Rotation.Quaternion.{Quaternion}

module _ (s : Scalar) (finite : s.F → Bool) (sqrt : s.F → s.F) where
  pub record Matrix : Type 0 where
    pub e0 : s.F
    pub e1 : s.F
    pub e2 : s.F
    pub e3 : s.F
    pub e4 : s.F
    pub e5 : s.F
    pub e6 : s.F
    pub e7 : s.F
    pub e8 : s.F

  abbrev pub elements : Matrix → List s.F
  elements m = m.e0 ∷ m.e1 ∷ m.e2 ∷ m.e3 ∷ m.e4 ∷ m.e5 ∷ m.e6 ∷ m.e7 ∷ m.e8 ∷ []

  abbrev pub all_finite : List s.F → Bool
  all_finite [] = true
  all_finite (e ∷ es) = finite e && all_finite es

  -- The constructor from the nine elements.
  abbrev pub matrix : Matrix → Result Matrix
  matrix m = assert (all_finite (elements m)) >> ok m

  -- Identiate, which the constructor without arguments calls.
  unfoldable pub identiate : Matrix
  identiate =
      let i = s.ratio 1 1 in
      let o = s.ratio 0 1 in
      record { e0 = i; e3 = o; e6 = o; e1 = o; e4 = i; e7 = o; e2 = o; e5 = o; e8 = i }

  -- `2 * a * b` and `1 - 2 * a * a - 2 * b * b`.
  abbrev pub twice : s.F → s.F → s.F
  twice a b = s.mul (s.mul (s.ratio 2 1) a) b

  abbrev pub diagonal : s.F → s.F → s.F
  diagonal a b = s.sub (s.sub (s.ratio 1 1) (twice a a)) (twice b b)

  unfoldable pub from_quaternion : Quaternion s finite sqrt → Matrix
  from_quaternion q = record {
    e0 = diagonal q.data_1 q.data_2;
    e3 = s.sub (twice q.data_0 q.data_1) (twice q.data_2 q.data_3);
    e6 = s.add (twice q.data_0 q.data_2) (twice q.data_1 q.data_3);
    e1 = s.add (twice q.data_0 q.data_1) (twice q.data_2 q.data_3);
    e4 = diagonal q.data_0 q.data_2;
    e7 = s.sub (twice q.data_1 q.data_2) (twice q.data_0 q.data_3);
    e2 = s.sub (twice q.data_0 q.data_2) (twice q.data_1 q.data_3);
    e5 = s.add (twice q.data_1 q.data_2) (twice q.data_0 q.data_3);
    e8 = diagonal q.data_0 q.data_1;
  }

  unfoldable pub transpose : Matrix → Result Matrix
  transpose m = matrix (record {
    e0 = m.e0;
    e1 = m.e3;
    e2 = m.e6;
    e3 = m.e1;
    e4 = m.e4;
    e5 = m.e7;
    e6 = m.e2;
    e7 = m.e5;
    e8 = m.e8;
  })

  -- The diagonal is scaled.
  unfoldable pub scale : Matrix → Vector s finite sqrt → Matrix
  scale m factors = record m {
    e0 = s.mul m.e0 factors.data_0;
    e4 = s.mul m.e4 factors.data_1;
    e8 = s.mul m.e8 factors.data_2;
  }

  -- A row by a column.
  abbrev pub sum_3 : (a b c x y z : s.F) → s.F
  sum_3 a b c x y z = s.add (s.add (s.mul a x) (s.mul b y)) (s.mul c z)

  unfoldable pub apply : Matrix → Vector s finite sqrt → Result (Vector s finite sqrt)
  apply m v =
      Vector.vector s finite sqrt (sum_3 m.e0 m.e3 m.e6 v.data_0 v.data_1 v.data_2)
        (sum_3 m.e1 m.e4 m.e7 v.data_0 v.data_1 v.data_2)
        (sum_3 m.e2 m.e5 m.e8 v.data_0 v.data_1 v.data_2)

  unfoldable pub multiply : Matrix → Matrix → Result Matrix
  multiply m n = matrix (record {
    e0 = sum_3 m.e0 m.e3 m.e6 n.e0 n.e1 n.e2;
    e1 = sum_3 m.e1 m.e4 m.e7 n.e0 n.e1 n.e2;
    e2 = sum_3 m.e2 m.e5 m.e8 n.e0 n.e1 n.e2;
    e3 = sum_3 m.e0 m.e3 m.e6 n.e3 n.e4 n.e5;
    e4 = sum_3 m.e1 m.e4 m.e7 n.e3 n.e4 n.e5;
    e5 = sum_3 m.e2 m.e5 m.e8 n.e3 n.e4 n.e5;
    e6 = sum_3 m.e0 m.e3 m.e6 n.e6 n.e7 n.e8;
    e7 = sum_3 m.e1 m.e4 m.e7 n.e6 n.e7 n.e8;
    e8 = sum_3 m.e2 m.e5 m.e8 n.e6 n.e7 n.e8;
  })

  -- GetGLMatrix: the elements of the array that it allocates.
  unfoldable pub get_gl_matrix : Matrix → List s.F
  get_gl_matrix m =
      let i = s.ratio 1 1 in
      let o = s.ratio 0 1 in
      m.e0 ∷ m.e1 ∷ m.e2 ∷ o ∷ m.e3 ∷ m.e4 ∷ m.e5 ∷ o ∷ m.e6 ∷ m.e7 ∷ m.e8 ∷ o ∷ o ∷ o ∷ o ∷ i ∷ []
