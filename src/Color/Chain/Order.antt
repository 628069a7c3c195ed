-- ===== src/Color/Chain/Order.antt =====
-- The order of the nodes of a chain, and the nodes around a position.
use mathlib.Core.Path.{subst}
use ren_general.Base.{
  ◌≡◌, refl, sym, ap, ◌⊎◌, inl, inr, Bool, true, false, not, some, [], ◌∷◌, ◌++◌, All, Bool-cases,
}
use ren_general.Scalar.{Scalar, Ordered, ltb}
use ren_general.Range
use ren_general.Range.{constrain}
use ren_general.Range.Bounds.{constrain-contains, and_left, and_right}
use ren_general.Color.{Color, mixed}
use ren_general.Color.Chain.{
  Nodes, add, add_mirrored, constrained, get_color, get_color_loop, mirror, mirror_loop, new,
  set_node,
}

less→not : (b : Bool) → not b ≡ true → b ≡ false
less→not true h = sym h
less→not false h = refl

module _ (s : Scalar) (o : Ordered s) where
  less_trans : (a b c : s.F) → ltb s a b ≡ true → ltb s b c ≡ true → ltb s a c ≡ true
  less_trans a b c h k = elim (Bool-cases (s.leb c a)) [
    | inl e ↦
        let ab = o.le_total b a (less→not (s.leb b a) h) in
        let cb = o.le_trans c a b e ab in let no = less→not (s.leb c b) k in cc
    | inr e ↦ ap not e
  ]

  abbrev pub Between : s.F → Type 0
  Between k = (s.leb (s.ratio 0 1) k ≡ true) × (s.leb k (s.ratio 1 1) ≡ true)

  abbrev pub Above : s.F → Nodes s → Type 0
  Above key = All (λ (n : s.F × Color s). ltb s key n.0 ≡ true)

  -- The keys ascend, and are between 0 and 1.
  abbrev pub IsChain : Nodes s → Type 0
  IsChain [] = Unit
  IsChain ((k, c) ∷ nodes) = Between k × Above k nodes × IsChain nodes

  Above-set_node :
      (low key : s.F) (color : Color s) (nodes : Nodes s)
      → ltb s low key ≡ true
      → Above low nodes
      → Above low (set_node s key color nodes)
  unfolding set_node
  Above-set_node low key color [] e h = (e, tt)
  Above-set_node low key color ((k, c) ∷ nodes) e (h, hs) = elim (Bool-cases (s.leb k key)) [
    | inr before ↦ rw before (e, (h, hs))
    | inl from ↦ elim (Bool-cases (s.leb key k)) [
      | inr behind ↦ rw (from, behind) (h, Above-set_node low key color nodes e hs)
      | inl same ↦ rw (from, same) (h, hs)
    ]
  ]

  Above-lower :
      (low key : s.F) (nodes : Nodes s) → ltb s low key ≡ true → Above key nodes → Above low nodes
  Above-lower low key [] e h = tt
  Above-lower low key ((k, c) ∷ nodes) e (h, hs) =
      (less_trans low key k e h, Above-lower low key nodes e hs)

  set_node-IsChain :
      (key : s.F) (color : Color s) (nodes : Nodes s)
      → Between key
      → IsChain nodes
      → IsChain (set_node s key color nodes)
  unfolding set_node
  set_node-IsChain key color [] b h = (b, tt, tt)
  set_node-IsChain key color ((k, c) ∷ nodes) b (bk, above, h) = elim (Bool-cases (s.leb k key)) [
    | inr before ↦
        let less : ltb s key k ≡ true = ap not before in
        rw before (b, (less, Above-lower key k nodes less above), (bk, above, h))
    | inl from ↦ elim (Bool-cases (s.leb key k)) [
      | inr behind ↦
          let less : ltb s k key ≡ true = ap not behind in
          rw (from, behind)
            (bk, Above-set_node k key color nodes less above, set_node-IsChain key color nodes b h)
      | inl same ↦ rw (from, same) (bk, above, h)
    ]
  ]

  -- Where the color at a position of a chain comes from: the bottom node, the two nodes around the
  -- position, or the top node.
  abbrev pub Around : s.F → s.F × Color s → Nodes s → Color s → Type 0
  Around position (lk, lc) nodes color =
      (before : Nodes s) × (k1 : s.F) × (c1 : Color s) × (k2 : s.F) × (c2 : Color s)
      × (after : Nodes s) × ((lk, lc) ∷ nodes ≡ before ++ (k1, c1) ∷ (k2, c2) ∷ after)
      × (ltb s k1 position ≡ true)
      × (s.leb position k2 ≡ true)
      × (color ≡ mixed s c1 c2 (s.div (s.sub position k1) (s.sub k2 k1)))

  abbrev pub Topmost : s.F → s.F × Color s → Nodes s → Color s → Type 0
  Topmost position (lk, lc) nodes color =
      (before : Nodes s) × (k : s.F) × ((lk, lc) ∷ nodes ≡ before ++ (k, color) ∷ [])
      × (ltb s k position ≡ true)

  loop-Around :
      (position lk : s.F) (lc : Color s) (nodes : Nodes s)
      → ltb s lk position ≡ true
      → Around position (lk, lc) nodes (get_color_loop s position (lk, lc) nodes)
        ⊎ Topmost position (lk, lc) nodes (get_color_loop s position (lk, lc) nodes)
  unfolding get_color_loop
  loop-Around position lk lc [] e = inr ([], lk, refl, e)
  loop-Around position lk lc ((k, c) ∷ nodes) e = elim (Bool-cases (s.leb position k)) [
    | inl here ↦ rw here (inl ([], lk, lc, k, c, nodes, refl, e, here, refl))
    | inr later ↦ rw later (elim (loop-Around position k c nodes (ap not later)) [
      | inl (before, k1, c1, k2, c2, after, split, low, high, color) ↦
          inl (
            (lk, lc) ∷ before,
            k1,
            c1,
            k2,
            c2,
            after,
            ap (λ l. (lk, lc) ∷ l) split,
            low,
            high,
            color,
          )
      | inr (before, k', split, low) ↦
          inr ((lk, lc) ∷ before, k', ap (λ l. (lk, lc) ∷ l) split, low)
    ])
  ]

  -- For a chain with a node, GetColor gives the color of the first node, where the position is at most
  -- its key; or the mix of two nodes that follow each other, where the position is above the key of
  -- one and at most that of the other; or the color of the last node, where it is above its key.
  pub get_color-Around :
      (position k : s.F) (c : Color s) (nodes : Nodes s)
      → (color : Color s) × (get_color s position ((k, c) ∷ nodes) ≡ some color)
        × (((s.leb position k ≡ true) × (color ≡ c))
            ⊎ (Around position (k, c) nodes color ⊎ Topmost position (k, c) nodes color))
  unfolding get_color get_color_loop
  get_color-Around position k c nodes = elim (Bool-cases (s.leb position k)) [
    | inl first ↦ (c, rw first refl, inl (first, refl))
    | inr behind ↦ (
      get_color_loop s position (k, c) nodes,
      rw behind refl,
      inr (loop-Around position k c nodes (ap not behind)),
    )
  ]

  -- What holds of float arithmetic for the keys: 0 is below 1, and halving a key, or taking it from 1,
  -- leaves it between 0 and 1.
  pub record Mirroring : Type 0 where
    pub zero_one : ltb s (s.ratio 0 1) (s.ratio 1 1) ≡ true
    pub half : (k : s.F) → Between k → Between (s.mul k (s.ratio 1 2))
    pub flip : (k : s.F) → Between k → Between (s.sub (s.ratio 1 1) k)

  pub data Operation : Type 0 where
    adds adds_mirrored : s.F → Color s → Operation
    mirrors : Operation

  unfoldable pub apply : Operation → Nodes s → Nodes s
  apply (adds position color) nodes = add s position color nodes
  apply (adds_mirrored position color) nodes = add_mirrored s position color nodes
  apply mirrors nodes = mirror s nodes

  module _ (laws : Mirroring) where
    constrained-Between : (position : s.F) → Between (constrained s position)
    unfolding constrained Range.contains Range.new
    constrained-Between position =
        let low = s.ratio 0 1 in
        let high = s.ratio 1 1 in
        let unit : Range.Range s = record { min = low; max = high } in
        let below = o.le_total high low (less→not (s.leb high low) laws.zero_one) in
        let whole : Range.new s low high ≡ unit = rw (below, laws.zero_one) refl in
        let inside = (constrain-contains s o unit position below).0 in
        let x = constrain s unit position in
        subst (λ r. Between (constrain s r position)) (sym whole)
          (
            and_left s o (s.leb low x) (s.leb x high) inside,
            and_right s o (s.leb low x) (s.leb x high) inside,
          )

    mirror_loop-IsChain :
        (nodes built : Nodes s)
        → IsChain built
        → IsChain nodes
        → IsChain (mirror_loop s built nodes)
    unfolding mirror_loop
    mirror_loop-IsChain [] built b h = b
    mirror_loop-IsChain ((k, c) ∷ nodes) built b (bk, above, h) =
        let half = laws.half k bk in
        mirror_loop-IsChain nodes _
          (set_node-IsChain _ c _ (laws.flip _ half) (set_node-IsChain _ c built half b)) h

    -- Add, AddMirrored and Mirror keep the nodes of a chain in ascending order of their keys and
    -- between 0 and 1, whatever the position and the color are.
    pub apply-IsChain :
        (op : Operation) (nodes : Nodes s) → IsChain nodes → IsChain (apply op nodes)
    unfolding apply add add_mirrored mirror
    apply-IsChain (adds position color) nodes h =
        set_node-IsChain _ color nodes (constrained-Between position) h
    apply-IsChain (adds_mirrored position color) nodes h =
        let between = constrained-Between position in
        set_node-IsChain _ color _ (laws.flip _ between) (set_node-IsChain _ color nodes between h)
    apply-IsChain mirrors nodes h = mirror_loop-IsChain nodes [] tt h

    zero-Between : Between (s.ratio 0 1)
    zero-Between = (
      o.le_refl (s.ratio 0 1),
      o.le_total (s.ratio 1 1) (s.ratio 0 1)
          (less→not (s.leb (s.ratio 1 1) (s.ratio 0 1)) laws.zero_one),
    )

    one-Between : Between (s.ratio 1 1)
    one-Between = (zero-Between.1, o.le_refl (s.ratio 1 1))

    -- The nodes of a new chain are in order and between 0 and 1.
    pub new-IsChain : (new_top new_bottom : Color s) → IsChain (new s new_top new_bottom)
    unfolding new
    new-IsChain new_top new_bottom =
        set_node-IsChain _ new_bottom (set_node s (s.ratio 1 1) new_top []) zero-Between
          (set_node-IsChain _ new_top [] one-Between tt)
