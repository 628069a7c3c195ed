-- ===== src/Color/Chain.antt =====
-- color.cxx: ColorChain, over a std::map from float to Color, which is a list of nodes in the order
-- of their keys.
pub mod Order
use ren_general.Base.{Bool, true, false, Option, none, some, List, [], ◌∷◌, if◌then◌else◌}
use ren_general.Scalar.{Scalar, ltb}
use ren_general.Range
use ren_general.Range.{constrain}
use ren_general.Color.{Color, mixed}

module _ (s : Scalar) where
  abbrev pub Nodes : Type 0
  Nodes = List (s.F × Color s)

  -- `Nodes[key] = color`.
  unfoldable pub set_node : s.F → Color s → Nodes → Nodes
  set_node key color [] = (key, color) ∷ []
  set_node key color ((k, c) ∷ nodes) =
      let rest = set_node key color nodes in
      if ltb s key k
      then (key, color) ∷ (k, c) ∷ nodes
      else if ltb s k key
      then (k, c) ∷ rest
      else (k, color) ∷ nodes

  unfoldable pub new : (new_top new_bottom : Color s) → Nodes
  unfolding set_node
  new new_top new_bottom = set_node (s.ratio 0 1) new_bottom (set_node (s.ratio 1 1) new_top [])

  -- `RangeF(0, 1).Constrain(Position)`.
  unfoldable pub constrained : s.F → s.F
  unfolding constrain Range.new
  constrained position = constrain s (Range.new s (s.ratio 0 1) (s.ratio 1 1)) position

  unfoldable pub add : s.F → Color s → Nodes → Nodes
  unfolding set_node constrained
  add position new_node nodes = set_node (constrained position) new_node nodes

  unfoldable pub add_mirrored : s.F → Color s → Nodes → Nodes
  unfolding set_node constrained
  add_mirrored position new_node nodes =
      let position' = constrained position in
      set_node (s.sub (s.ratio 1 1) position') new_node (set_node position' new_node nodes)

  -- The loop of Mirror, with the nodes that it has built.
  unfoldable pub mirror_loop : (new_nodes nodes : Nodes) → Nodes
  unfolding set_node
  mirror_loop new_nodes [] = new_nodes
  mirror_loop new_nodes ((k, c) ∷ nodes) =
      let half = s.mul k (s.ratio 1 2) in
      mirror_loop (set_node (s.sub (s.ratio 1 1) half) c (set_node half c new_nodes)) nodes

  unfoldable pub mirror : Nodes → Nodes
  unfolding mirror_loop
  mirror nodes = mirror_loop [] nodes

  -- The loop of GetColor from a node on, with the node before it.
  unfoldable pub get_color_loop : s.F → (last : s.F × Color s) → Nodes → Color s
  get_color_loop position (lk, lc) [] = lc
  get_color_loop position (lk, lc) ((k, c) ∷ nodes) =
      let rest = get_color_loop position (k, c) nodes in
      if s.leb position k then mixed s lc c (s.div (s.sub position lk) (s.sub k lk)) else rest

  -- A chain has a node, or else this is undefined behaviour.
  unfoldable pub get_color : s.F → Nodes → Option (Color s)
  unfolding get_color_loop
  get_color position [] = none
  get_color position ((k, c) ∷ nodes) =
      if s.leb position k then some c else some (get_color_loop position (k, c) ((k, c) ∷ nodes))
