-- ===== src/Region/Sum.antt =====
-- The sums of regions, and the sum of a region and a point.
use ren_general.Base.{◌≡◌, refl, Bool, true, false}
use ren_general.Exception.{Result, ok, ◌>>=◌, ◌>>◌, assert}
use ren_general.Scalar.{Scalar, Ordered, min, max}
use ren_general.Vector.Flat.{FlatVector, flat_vector, sub}
use ren_general.Region.{Region, include_region, include_point, include_assign}

-- What returns behind two assertions returns without them.
assert-dropped :
    {A B : Type 0} (a b : Bool) (v : A) (k : A → Result B) (r : B)
    → ((assert a >> (assert b >> ok v)) >>= k) ≡ ok r
    → k v ≡ ok r
assert-dropped true true v k r h = h
assert-dropped true false v k r h = cc
assert-dropped false b v k r h = cc

module _ (s : Scalar) (finite : s.F → Bool) (sqrt : s.F → s.F) where
  -- Where the sum of two regions returns, the assignment of the sum gives the same region.
  pub include_assign-include_region :
      (r o r' : Region s finite sqrt)
      → include_region s finite sqrt r o ≡ ok r'
      → include_assign s finite sqrt r o ≡ ok r'
  unfolding include_region include_assign sub
  include_assign-include_region r o r' h =
      let low_0 = min s r.start.data_0 o.start.data_0 in
      let low_1 = min s r.start.data_1 o.start.data_1 in
      let high_0 =
        max s (s.add r.start.data_0 r.size.data_0) (s.add o.start.data_0 o.size.data_0) in
      let high_1 =
        max s (s.add r.start.data_1 r.size.data_1) (s.add o.start.data_1 o.size.data_1) in
      let start : FlatVector s finite sqrt = record { data_0 = low_0; data_1 = low_1 } in
      let end : FlatVector s finite sqrt = record { data_0 = high_0; data_1 = high_1 } in
      let finish : FlatVector s finite sqrt → Result (Region s finite sqrt) =
        λ e. sub s finite sqrt e start >>= λ size. ok (record { start = start; size = size }) in
      assert-dropped (finite high_0) (finite high_1) end finish r' (
        assert-dropped (finite low_0) (finite low_1) start
          (λ st. flat_vector s finite sqrt high_0 high_1 >>= λ e.
            sub s finite sqrt e st >>= λ size. ok (record { start = st; size = size }))
          r' h)

  -- A point of a region, its far edges included.
  abbrev pub Inside : Region s finite sqrt → FlatVector s finite sqrt → Type 0
  Inside r p =
      (s.leb r.start.data_0 p.data_0 ≡ true)
      × (s.leb r.start.data_1 p.data_1 ≡ true)
      × (s.leb p.data_0 (s.add r.start.data_0 r.size.data_0) ≡ true)
      × (s.leb p.data_1 (s.add r.start.data_1 r.size.data_1) ≡ true)

  abbrev pub AllFinite : FlatVector s finite sqrt → Type 0
  AllFinite v = (finite v.data_0 ≡ true) × (finite v.data_1 ≡ true)

  -- For an ordered scalar, including a point inside a region whose start and far corner are finite
  -- keeps the start, but makes the far corner of the region its size.
  pub include_point-Inside :
      (r : Region s finite sqrt) (p : FlatVector s finite sqrt)
      → Ordered s
      → Inside r p
      → AllFinite r.start
      → finite (s.add r.start.data_0 r.size.data_0) ≡ true
      → finite (s.add r.start.data_1 r.size.data_1) ≡ true
      → include_point s finite sqrt r p
        ≡ ok (record {
          start = r.start;
          size = record {
            data_0 = s.add r.start.data_0 r.size.data_0;
            data_1 = s.add r.start.data_1 r.size.data_1;
          };
        })
  unfolding include_point
  include_point-Inside r p o i f g h = rw (i.0, i.1, i.2, i.3, f.0, f.1, g, h) refl
