-- ===== src/Display/Depth.antt =====
-- The depth of a layer: `guacenc_display_get_depth` of src/guacenc/display-layers.c.
use mathlib.Core.Option
use guacenc.Base.Int.{pos, eqb_ℤ}
use guacenc.Buffer.{Cairo}
use guacenc.Display.{Layer, Display, no_parent, max_layers, slot, get_layer}
use guacenc.Base.{
  ℕ, zero, suc, ◌+◌, ◌≤◌, ◌<◌, ◌≡◌, refl, ap, ◌∙◌, ◌⊎◌, inl, inr, true, false, Option, none, some,
  arith, lt→ltb,
}

slot-lt : (j bound : ℕ) → j < bound → slot (pos j) bound ≡ some j
unfolding slot
slot-lt j bound h = rw (lt→ltb j bound h)

module _ (cairo : Cairo) where
  -- `guacenc_display_get_depth`, none when it needs more nested calls than the fuel.
  unfoldable pub get_depth : ℕ → Display cairo → Option (Layer cairo) → Option (ℕ × Display cairo)
  get_depth zero display layer = none
  get_depth (suc fuel) display none = some (0, display)
  get_depth (suc fuel) display (some layer) = elim (eqb_ℤ layer.parent_index no_parent) [
    | true ↦ some (0, display)
    | false ↦ elim (get_layer cairo display layer.parent_index) [
      | none ↦ Option.map (λ p. (p.0 + 1, p.1)) (get_depth fuel display none)
      | some (i, parent, display') ↦
          Option.map (λ p. (p.0 + 1, p.1)) (get_depth fuel display' (some parent))
    ]
  ]

  -- Each allocated layer has no parent or a parent that is allocated and has a smaller rank.
  abbrev pub IsAcyclic : (ℕ → ℕ) → Display cairo → Type 0
  IsAcyclic rank d =
      (i : ℕ) (layer : Layer cairo)
      → d.layers i ≡ some layer
      → (layer.parent_index ≡ no_parent)
        ⊎ ((j : ℕ) × (parent : Layer cairo) × (layer.parent_index ≡ pos j)
            × (j < max_layers)
            × (d.layers j ≡ some parent)
            × (rank j < rank i))

  pub get_layer-found :
      (d : Display cairo) (j : ℕ) (layer : Layer cairo)
      → j < max_layers
      → d.layers j ≡ some layer
      → get_layer cairo d (pos j) ≡ some (j, layer, d)
  unfolding get_layer
  get_layer-found d j layer h e = let there = slot-lt j max_layers h in rw (get_layer, there, e)

  -- Where every allocated layer has no parent, or an allocated parent of a smaller rank, the
  -- depth of an allocated layer is found with any fuel above its rank; it is at most the
  -- rank, and the display is unchanged.
  pub get_depth-le :
      (fuel : ℕ) (rank : ℕ → ℕ) (d : Display cairo) (i : ℕ) (layer : Layer cairo)
      → IsAcyclic rank d
      → d.layers i ≡ some layer
      → rank i < fuel
      → (depth : ℕ) × (get_depth fuel d (some layer) ≡ some (depth, d)) × (depth ≤ rank i)
  unfolding get_depth
  get_depth-le zero rank d i layer acyclic e h = absurd (omega arith)
  get_depth-le (suc fuel) rank d i layer acyclic e h = elim (acyclic i layer e) [
    | inl root ↦ (0, rw (get_depth, root), omega arith)
    | inr (j, parent, p, bound, there, less) ↦
        let (depth, found, le) = get_depth-le fuel rank d j parent acyclic there (omega arith) in
        (
          depth + 1,
          let child : eqb_ℤ layer.parent_index no_parent ≡ false = ground (arith, p) in
              let up : get_layer cairo d layer.parent_index ≡ some (j, parent, d) =
                ap (get_layer cairo d) p ∙ get_layer-found d j parent bound there in
              rw (get_depth, child, up, found),
          omega arith,
        )
  ]

  -- A layer whose parent is the layer itself has no depth: with any fuel the recursion is
  -- still running.
  pub get_depth-none :
      (fuel : ℕ) (d : Display cairo) (i : ℕ) (layer : Layer cairo)
      → i < max_layers
      → d.layers i ≡ some layer
      → layer.parent_index ≡ pos i
      → get_depth fuel d (some layer) ≡ none
  unfolding get_depth
  get_depth-none zero d i layer bound e p = refl
  get_depth-none (suc fuel) d i layer bound e p =
      let child : eqb_ℤ layer.parent_index no_parent ≡ false = ground (arith, p) in
      let up : get_layer cairo d layer.parent_index ≡ some (i, layer, d) =
        ap (get_layer cairo d) p ∙ get_layer-found d i layer bound e in
      rw (get_depth, child, up, get_depth-none fuel d i layer bound e p)
