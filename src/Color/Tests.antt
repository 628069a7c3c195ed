-- ===== src/Color/Tests.antt =====
-- A chain of colors with whole numbers, and the theorems at it.
use ren_general.Base.{◌≡◌, refl, ◌⊎◌, true, some, [], ◌∷◌, arith}
use ren_general.Scalar.Exact.{ℤ, pos, whole, whole-Ordered}
use ren_general.Color.{Color}
use ren_general.Color.Chain.{Nodes, new, set_node, get_color}
use ren_general.Color.Chain.Order.{
  Around, Topmost, IsChain, Mirroring, adds_mirrored, apply, apply-IsChain, get_color-Around,
}

abbrev grey : ℤ → Color whole
grey n = record { red = n; green = n; blue = n; alpha = pos 1 }

abbrev chain : Nodes whole
chain = (pos 0, grey (pos 10)) ∷ (pos 1, grey (pos 20)) ∷ []

new-chain : new whole (grey (pos 20)) (grey (pos 10)) ≡ chain
unfolding new set_node
new-chain = refl

whole-Mirroring : Mirroring whole whole-Ordered
whole-Mirroring = record {
  zero_one = refl;
  half = λ k h. ground (arith, h);
  flip = λ k h. ground (arith, h.0, h.1);
}

apply-IsChain_example :
    IsChain whole whole-Ordered
      (apply whole whole-Ordered (adds_mirrored (pos 7) (grey (pos 30))) chain)
apply-IsChain_example =
    apply-IsChain whole whole-Ordered whole-Mirroring (adds_mirrored (pos 7) (grey (pos 30))) chain
      ((refl, refl), (refl, tt), ((refl, refl), tt, tt))

get_color-Around_example :
    (color : Color whole) × (get_color whole (pos 1) chain ≡ some color)
    × (((whole.leb (pos 1) (pos 0) ≡ true) × (color ≡ grey (pos 10)))
        ⊎ (Around whole whole-Ordered
              (pos 1)
              (pos 0, grey (pos 10))
              ((pos 1, grey (pos 20)) ∷ [])
              color
            ⊎ Topmost whole whole-Ordered
                (pos 1)
                (pos 0, grey (pos 10))
                ((pos 1, grey (pos 20)) ∷ [])
                color))
get_color-Around_example =
    get_color-Around whole whole-Ordered (pos 1) (pos 0) (grey (pos 10))
      ((pos 1, grey (pos 20)) ∷ [])
