-- ===== src/Region.antt =====
-- region.cxx and region.h: Region, over the flat vectors.
pub mod Sum
pub mod Tests
use ren_general.Base.{Bool, true, false, not, ◌&&◌}
use ren_general.Exception.{Result, ok, abort, ◌>>=◌, ◌>>◌, assert}
use ren_general.Scalar.{Scalar, ltb, min, max}
use ren_general.Vector.Flat.{FlatVector, flat_vector, origin, add, sub, mul, div, scale}

module _ (s : Scalar) (finite : s.F → Bool) (sqrt : s.F → s.F) where
  pub record Region : Type 0 where
    pub start : FlatVector s finite sqrt
    pub size : FlatVector s finite sqrt

  -- The constructors; the one without arguments makes the start the origin, and asserts its size.
  unfoldable pub new : (start size : FlatVector s finite sqrt) → Region
  new start size = record { start = start; size = size }

  unfoldable pub unit : Result Region
  unit = flat_vector s finite sqrt (s.ratio 1 1) (s.ratio 1 1) >>= λ size.
      ok (record { start = origin s finite sqrt; size = size })

  unfoldable pub valid : Region → Bool
  valid r = s.leb (s.ratio 0 1) r.size.data_0 && s.leb (s.ratio 0 1) r.size.data_1

  unfoldable pub contains : Region → FlatVector s finite sqrt → Result Bool
  contains r point = sub s finite sqrt point r.start >>= λ relative_point. ok (
      s.leb (s.ratio 0 1) relative_point.data_0
      && (ltb s relative_point.data_0 r.size.data_0
          && (s.leb (s.ratio 0 1) relative_point.data_1
              && ltb s relative_point.data_1 r.size.data_1)))

  unfoldable pub transform :
      Region → FlatVector s finite sqrt → Region → Result (FlatVector s finite sqrt)
  transform r point to_region = sub s finite sqrt point r.start >>= λ relative.
      div s finite sqrt to_region.size r.size >>= λ ratio.
      mul s finite sqrt relative ratio >>= λ scaled. add s finite sqrt scaled to_region.start

  unfoldable pub scale_area :
      Region → FlatVector s finite sqrt → Region → Result (FlatVector s finite sqrt)
  scale_area r area to_region =
      div s finite sqrt area r.size >>= λ relative. mul s finite sqrt relative to_region.size

  unfoldable pub transform_region : Region → Region → Region → Result Region
  unfolding transform scale_area
  transform_region r subregion to_region = transform r subregion.start to_region >>= λ start.
      scale_area r subregion.size to_region >>= λ size. ok (record { start = start; size = size })

  unfoldable pub constrain : Region → FlatVector s finite sqrt → Result (FlatVector s finite sqrt)
  constrain r point =
      flat_vector s finite sqrt
        (min s (max s point.data_0 r.start.data_0) (s.add r.start.data_0 r.size.data_0))
        (min s (max s point.data_1 r.start.data_1) (s.add r.start.data_1 r.size.data_1))

  unfoldable pub translate : Region → FlatVector s finite sqrt → Result Region
  translate r offset =
      add s finite sqrt r.start offset >>= λ start. ok (record { start = start; size = r.size })

  unfoldable pub subregion : Region → Region → Result Region
  subregion r relative = mul s finite sqrt r.size relative.start >>= λ offset.
      add s finite sqrt r.start offset >>= λ start.
      mul s finite sqrt r.size relative.size >>= λ size. ok (record { start = start; size = size })

  unfoldable pub scaled : Region → s.F → Result Region
  scaled r k = scale s finite sqrt r.start k >>= λ start.
      scale s finite sqrt r.size k >>= λ size. ok (record { start = start; size = size })

  -- `operator +` with a region.
  unfoldable pub include_region : Region → Region → Result Region
  include_region r o =
      flat_vector s finite sqrt (min s r.start.data_0 o.start.data_0)
        (min s r.start.data_1 o.start.data_1)
      >>= λ new_start.
          flat_vector s finite sqrt
            (max s (s.add r.start.data_0 r.size.data_0) (s.add o.start.data_0 o.size.data_0))
            (max s (s.add r.start.data_1 r.size.data_1) (s.add o.start.data_1 o.size.data_1))
          >>= λ end. sub s finite sqrt end new_start >>= λ size.
              ok (record { start = new_start; size = size })

  -- `operator +` with a point; `operator +=` with one assigns the same.
  unfoldable pub include_point : Region → FlatVector s finite sqrt → Result Region
  include_point r point =
      flat_vector s finite sqrt (min s r.start.data_0 point.data_0)
        (min s r.start.data_1 point.data_1)
      >>= λ start.
          flat_vector s finite sqrt (max s (s.add r.start.data_0 r.size.data_0) point.data_0)
            (max s (s.add r.start.data_1 r.size.data_1) point.data_1)
          >>= λ size. ok (record { start = start; size = size })

  -- `operator +=` with a region: the elements are assigned, with no assertion but in the last `-=`.
  unfoldable pub include_assign : Region → Region → Result Region
  include_assign r o =
      let size : FlatVector s finite sqrt = record {
        data_0 = max s (s.add r.start.data_0 r.size.data_0) (s.add o.start.data_0 o.size.data_0);
        data_1 = max s (s.add r.start.data_1 r.size.data_1) (s.add o.start.data_1 o.size.data_1);
      } in
      let start : FlatVector s finite sqrt = record {
        data_0 = min s r.start.data_0 o.start.data_0;
        data_1 = min s r.start.data_1 o.start.data_1;
      } in
      sub s finite sqrt size start >>= λ size'. ok (record { start = start; size = size' })

  unfoldable pub intersect : Region → Region → Result Region
  intersect r o =
      flat_vector s finite sqrt (max s r.start.data_0 o.start.data_0)
        (max s r.start.data_1 o.start.data_1)
      >>= λ start.
          flat_vector s finite sqrt
            (min s (s.add r.start.data_0 r.size.data_0) (s.add o.start.data_0 o.size.data_0))
            (min s (s.add r.start.data_1 r.size.data_1) (s.add o.start.data_1 o.size.data_1))
          >>= λ end.
              sub s finite sqrt end start >>= λ size. ok (record { start = start; size = size })
