-- ===== src/Display/Flatten/Order.antt =====
-- The order in which layers are flattened: children before their parents.
use guacenc.Base.{
  not, ◌==◌, if◌then◌else◌, ℕ, zero, suc, ◌+◌, ◌<◌, ◌≡◌, refl, sym, ap, ◌∙◌, ◌⊎◌, inl, inr, false,
  Option, none, some, List, [], ◌∷◌, arith, Bool-cases, Option-cases,
}
use mathlib.Core.List.{Permᴰ}
use mathlib.Core.Option
use mathlib.Core.Option.{none-ne-some}
use guacenc.Base.Int.{eqb_ℤ, ◌-ℤ◌, negsuc, ℤ, pos, ◌≤ℤ◌, ◌<ℤ◌, pos_part, neg_part, -ℤ_parts}
use guacenc.Buffer.{Cairo}
use guacenc.Display.{max_layers, Layer, Display, no_parent, get_layer}
use guacenc.Display.Depth.{get_layer-found, get_depth-le, IsAcyclic, get_depth}
use guacenc.Display.Flatten.{difference, Qsort, compare_layers, layer_comparator, pointers_from}

module _ {A : Type 0} where
  abbrev pub All : (A → Type 0) → List A → Type 0
  All P [] = Unit {0}
  All P (x ∷ xs) = P x × All P xs

  -- Every entry with each one behind it.
  abbrev pub AllPairs : (A → A → Type 0) → List A → Type 0
  AllPairs R [] = Unit {0}
  AllPairs R (x ∷ xs) = All (R x) xs × AllPairs R xs

  -- What the C standard asks of a comparator.
  pub record IsOrder (value : A → A → ℤ) : Type 0 where
    pub total : (a b : A) → (value a b ≤ℤ pos 0) ⊎ (value b a ≤ℤ pos 0)
    pub transitive : (a b c : A) → value a b ≤ℤ pos 0 → value b c ≤ℤ pos 0 → value a c ≤ℤ pos 0

-- `qsort` sorts: with a comparator that answers for the entries of the array by an order, and leaves the
-- state, it gives a permutation of the array in which no entry is greater than one behind it.
pub record Sorts (library : Qsort) : Type 1 where
  pub sorts :
      {A State : Type 0} (comparator : A → A → State → Option (ℤ × State)) (value : A → A → ℤ)
      (entries : List A) (s : State)
      → IsOrder value
      → All (λ a. All (λ b. comparator a b s ≡ some (value a b, s)) entries) entries
      → (sorted : List A) × (library.qsort comparator entries s ≡ some (sorted, s))
        × Permᴰ entries sorted
        × AllPairs (λ a b. value a b ≤ℤ pos 0) sorted

abbrev SameInt : ℤ → ℤ → Type 0
SameInt p q = pos_part p + neg_part q ≡ pos_part q + neg_part p

-- The first of the depths, the parents and the Zs that differ decides, for the greater one.
abbrev Precedes : (a b : ℕ) (p q z w : ℤ) → Type 0
Precedes a b p q z w = (b < a) ⊎ ((a ≡ b) × ((q <ℤ p) ⊎ (SameInt p q × (w ≤ℤ z))))

-- The comparison without the range of an `int`.
abbrev compared : (a_depth b_depth : ℕ) (a_parent b_parent a_z b_z : ℤ) → ℤ
compared a_depth b_depth a_parent b_parent a_z b_z =
    if not (b_depth == a_depth)
    then pos b_depth -ℤ pos a_depth
    else if not (eqb_ℤ b_parent a_parent)
    then b_parent -ℤ a_parent
    else b_z -ℤ a_z

-- `b - a` does not overflow.
abbrev pub Fits : ℤ → ℤ → Type 0
Fits b a = difference b a ≡ some (b -ℤ a)

compare_layers-compared :
    (a b : ℕ) (p q z w : ℤ)
    → Fits q p
    → Fits w z
    → compare_layers a b p q z w ≡ some (compared a b p q z w)
unfolding compare_layers
compare_layers-compared a b p q z w h k = elim (Bool-cases (b == a)) [
  | inl depths ↦ elim (Bool-cases (eqb_ℤ q p)) [
    | inl parents ↦ rw (depths, parents) k
    | inr parents ↦ rw (depths, parents) h
  ]
  | inr depths ↦ rw depths refl
]

compared-Precedes : (a b : ℕ) (p q z w : ℤ) → compared a b p q z w ≤ℤ pos 0 → Precedes a b p q z w
compared-Precedes a b p q z w h =
    let depths = -ℤ_parts (pos b) (pos a) in
    let parents = -ℤ_parts q p in let zs = -ℤ_parts w z in ground (arith, h, depths, parents, zs)

Precedes-compared : (a b : ℕ) (p q z w : ℤ) → Precedes a b p q z w → compared a b p q z w ≤ℤ pos 0
Precedes-compared a b p q z w h =
    let depths = -ℤ_parts (pos b) (pos a) in
    let parents = -ℤ_parts q p in let zs = -ℤ_parts w z in ground (arith, h, depths, parents, zs)

Precedes-total : (a b : ℕ) (p q z w : ℤ) → Precedes a b p q z w ⊎ Precedes b a q p w z
Precedes-total a b p q z w = ground arith

Precedes-trans :
    (a b c : ℕ) (p q r z w v : ℤ)
    → Precedes a b p q z w
    → Precedes b c q r w v
    → Precedes a c p r z v
Precedes-trans a b c p q r z w v h k = ground (arith, h, k)

module _ (cairo : Cairo) (d : Display cairo) where
  -- No two layers have Zs, or parents, whose difference overflows an `int`.
  abbrev pub ZsFit : Type 0
  ZsFit = (i j : ℕ) (a b : Layer cairo) → d.layers i ≡ some a → d.layers j ≡ some b → Fits b.z a.z

  abbrev ParentsFit : Type 0
  ParentsFit =
      (i j : ℕ) (a b : Layer cairo)
      → d.layers i ≡ some a
      → d.layers j ≡ some b
      → Fits b.parent_index a.parent_index

  -- A parent is -1 or the index of a layer.
  parent_bounds :
      (rank : ℕ → ℕ) (i : ℕ) (a : Layer cairo)
      → IsAcyclic cairo rank d
      → d.layers i ≡ some a
      → (negsuc 0 ≤ℤ a.parent_index) × (a.parent_index <ℤ pos max_layers)
  parent_bounds rank i a acyclic e = elim (acyclic i a e) [
    | inl root ↦ rw root (omega arith, omega arith)
    | inr (j, parent, p, bound, there, less) ↦ rw p (omega arith, omega arith)
  ]

  near-Fits :
      (p q : ℤ)
      → (negsuc 0 ≤ℤ p) × (p <ℤ pos max_layers)
      → (negsuc 0 ≤ℤ q) × (q <ℤ pos max_layers)
      → Fits q p
  unfolding difference
  near-Fits p q h k = let parts = -ℤ_parts q p in ground (arith, h, k, parts)

  parents_fit : (rank : ℕ → ℕ) → IsAcyclic cairo rank d → ParentsFit
  parents_fit rank acyclic i j a b e e' =
      near-Fits a.parent_index b.parent_index (parent_bounds rank i a acyclic e)
        (parent_bounds rank j b acyclic e')

module _ (cairo : Cairo) (fuel : ℕ) (d : Display cairo) where
  -- What the comparator reads of a layer.
  abbrev depth_of : ℕ → ℕ
  depth_of i = elim (get_depth cairo fuel d (d.layers i)) [ some (n, d') ↦ n | none ↦ 0 ]

  abbrev parent_of : ℕ → ℤ
  parent_of i = elim (d.layers i) [ some layer ↦ layer.parent_index | none ↦ no_parent ]

  abbrev z_of : ℕ → ℤ
  z_of i = elim (d.layers i) [ some layer ↦ layer.z | none ↦ pos 0 ]

  -- The order that the comparator stands for.
  abbrev value : Option ℕ → Option ℕ → ℤ
  value none none = pos 0
  value none (some b) = pos 1
  value (some a) none = negsuc 0
  value (some a) (some b) =
      compared (depth_of a) (depth_of b) (parent_of a) (parent_of b) (z_of a) (z_of b)

  value-total : (a b : Option ℕ) → (value a b ≤ℤ pos 0) ⊎ (value b a ≤ℤ pos 0)
  value-total none none = inl (omega arith)
  value-total none (some b) = inr (omega arith)
  value-total (some a) none = inl (omega arith)
  value-total (some a) (some b) =
      elim (Precedes-total (depth_of a) (depth_of b) (parent_of a) (parent_of b) (z_of a)
        (z_of b)) [
          | inl h ↦ inl (
              Precedes-compared (depth_of a) (depth_of b) (parent_of a) (parent_of b) (z_of a)
                (z_of b) h)
          | inr h ↦ inr (
              Precedes-compared (depth_of b) (depth_of a) (parent_of b) (parent_of a) (z_of b)
                (z_of a) h)
        ]

  value-trans : (a b c : Option ℕ) → value a b ≤ℤ pos 0 → value b c ≤ℤ pos 0 → value a c ≤ℤ pos 0
  value-trans none none c h k = k
  value-trans none (some b) c h k = absurd (omega (arith, h))
  value-trans (some a) b none h k = omega arith
  value-trans (some a) none (some c) h k = absurd (omega (arith, k))
  value-trans (some a) (some b) (some c) h k =
      let p = parent_of in
      let z = z_of in
      Precedes-compared (depth_of a) (depth_of c) (p a) (p c) (z a) (z c) (
        Precedes-trans (depth_of a) (depth_of b) (depth_of c) (p a) (p b) (p c) (z a) (z b) (z c)
          (compared-Precedes (depth_of a) (depth_of b) (p a) (p b) (z a) (z b) h)
          (compared-Precedes (depth_of b) (depth_of c) (p b) (p c) (z b) (z c) k))

  value-IsOrder : IsOrder value
  value-IsOrder = record { total = value-total; transitive = value-trans }

  -- A pointer that is NULL or a layer.
  abbrev pub Allocated : Option ℕ → Type 0
  Allocated none = Unit {0}
  Allocated (some i) = (layer : Layer cairo) × (d.layers i ≡ some layer)

  -- Where the depth of each layer is found and nothing is allocated for it, the comparator gives the order.
  abbrev HasDepths : Type 0
  HasDepths =
      (i : ℕ) (layer : Layer cairo)
      → d.layers i ≡ some layer
      → get_depth cairo fuel d (some layer) ≡ some (depth_of i, d)

  comparator-value :
      (a b : Option ℕ)
      → HasDepths
      → ParentsFit cairo d
      → ZsFit cairo d
      → Allocated a
      → Allocated b
      → layer_comparator cairo fuel a b d ≡ some (value a b, d)
  unfolding layer_comparator
  comparator-value none none h f g p q = refl
  comparator-value none (some b) h f g p q = refl
  comparator-value (some a) none h f g p q = refl
  comparator-value (some a) (some b) h f g (layer, e) (layer', e') =
      let parent : layer.parent_index ≡ parent_of a = rw (parent_of, e) refl in
      let parent' : layer'.parent_index ≡ parent_of b = rw (parent_of, e') refl in
      let z : layer.z ≡ z_of a = rw (z_of, e) refl in
      let z' : layer'.z ≡ z_of b = rw (z_of, e') refl in
      rw
        (
          layer_comparator,
          e,
          e',
          h a layer e,
          h b layer' e',
          compare_layers-compared (depth_of a) (depth_of b) layer.parent_index layer'.parent_index
              layer.z layer'.z (f a b layer layer' e e') (g a b layer layer' e e'),
        )
        (λ i. some (compared (depth_of a) (depth_of b) (parent i) (parent' i) (z i) (z' i), d))

  pointers-Allocated : (n i : ℕ) → All Allocated (pointers_from cairo n i d)
  unfolding pointers_from
  pointers-Allocated zero i = tt
  pointers-Allocated (suc n) i = elim (Option-cases (d.layers i)) [
    | inl e ↦ rw (pointers_from, e) (tt, pointers-Allocated n (i + 1))
    | inr (layer, e) ↦ rw (pointers_from, e) ((layer, e), pointers-Allocated n (i + 1))
  ]

module _ {A : Type 0} where
  All-map : {P Q : A → Type 0} (xs : List A) → ((x : A) → P x → Q x) → All P xs → All Q xs
  All-map [] f h = tt
  All-map (x ∷ xs) f h = (f x h.0, All-map xs f h.1)

  AllPairs-map :
      {R S : A → A → Type 0} (xs : List A)
      → ((x y : A) → R x y → S x y)
      → AllPairs R xs
      → AllPairs S xs
  AllPairs-map [] f h = tt
  AllPairs-map (x ∷ xs) f h = (All-map xs (f x) h.0, AllPairs-map xs f h.1)

module _ (cairo : Cairo) where
  deeper :
      (o o' : Option (ℕ × Display cairo)) (r : ℕ × Display cairo)
      → ((r' : ℕ × Display cairo) → o ≡ some r' → o' ≡ some r')
      → Option.map (λ p. (p.0 + 1, p.1)) o ≡ some r
      → Option.map (λ p. (p.0 + 1, p.1)) o' ≡ some r
  deeper none o' r f h = absurd (none-ne-some r h)
  deeper (some r') o' r f h = ap (Option.map (λ p. (p.0 + 1, p.1))) (f r' refl) ∙ h

  -- More fuel changes no depth.
  get_depth_more :
      (fuel : ℕ) (d : Display cairo) (layer : Option (Layer cairo)) (r : ℕ × Display cairo)
      → get_depth cairo fuel d layer ≡ some r
      → get_depth cairo (suc fuel) d layer ≡ some r
  unfolding get_depth
  get_depth_more zero d layer r h = absurd (none-ne-some r h)
  get_depth_more (suc fuel) d none r h = h
  get_depth_more (suc fuel) d (some layer) r h =
      elim (Bool-cases (eqb_ℤ layer.parent_index no_parent)) [
        | inl root ↦ rw (get_depth, root) (rw (get_depth, root) at h)
        | inr child ↦ elim (Option-cases (get_layer cairo d layer.parent_index)) [
          | inl e ↦
              rw (get_depth, child, e)
                (deeper (get_depth cairo fuel d none) (get_depth cairo (suc fuel) d none) r
                  (get_depth_more fuel d none) (rw (get_depth, child, e) at h))
          | inr ((j, parent, d'), e) ↦
              rw (get_depth, child, e)
                (deeper (get_depth cairo fuel d' (some parent))
                  (get_depth cairo (suc fuel) d' (some parent)) r
                  (get_depth_more fuel d' (some parent)) (rw (get_depth, child, e) at h))
        ]
      ]

module _ (cairo : Cairo) (fuel : ℕ) (d : Display cairo) where
  -- A pointer to the parent of the layer behind another pointer.
  abbrev pub IsParent : Option ℕ → Option ℕ → Type 0
  IsParent none b = ⊥
  IsParent (some j) none = ⊥
  IsParent (some j) (some i) =
      (layer : Layer cairo) × (d.layers i ≡ some layer) × (layer.parent_index ≡ pos j)

  abbrev depth_in : Option (ℕ × Display cairo) → ℕ
  depth_in none = 0
  depth_in (some (n, d')) = n

  depth_of-found :
      (i : ℕ) (layer : Layer cairo) (n : ℕ)
      → d.layers i ≡ some layer
      → get_depth cairo fuel d (some layer) ≡ some (n, d)
      → depth_of cairo fuel d i ≡ n
  depth_of-found i layer n e h = rw (depth_of, e, h) refl

  depths :
      (rank : ℕ → ℕ) → IsAcyclic cairo rank d → ((i : ℕ) → rank i < fuel) → HasDepths cairo fuel d
  depths rank acyclic bound i layer e =
      let (n, found, le) = get_depth-le cairo fuel rank d i layer acyclic e (bound i) in
      found ∙ ap (λ m. some (m, d)) (sym (depth_of-found i layer n e found))

  child_depth :
      (rank : ℕ → ℕ) (i j : ℕ)
      → IsAcyclic cairo rank d
      → ((i : ℕ) → rank i < fuel)
      → IsParent (some j) (some i)
      → depth_of cairo fuel d i ≡ depth_of cairo fuel d j + 1
  unfolding get_depth
  child_depth rank i j acyclic bound (layer, e, p) = elim (acyclic i layer e) [
    | inl root ↦ absurd (ground (arith, sym p ∙ root))
    | inr (k, parent, q, small, there, less) ↦
        let same : k ≡ j = ground (arith, sym q ∙ p) in
        let at_j : d.layers j ≡ some parent = ap d.layers (sym same) ∙ there in
        let (m, own, _) = get_depth-le cairo fuel rank d i layer acyclic e (bound i) in
        let (n, above, _) = get_depth-le cairo fuel rank d j parent acyclic at_j (bound j) in
        let child : eqb_ℤ layer.parent_index no_parent ≡ false = ground (arith, p) in
        let up : get_layer cairo d layer.parent_index ≡ some (j, parent, d) =
          ap (get_layer cairo d) p
          ∙ get_layer-found cairo d j parent (omega (arith, small, same)) at_j in
        let stepped : get_depth cairo (suc fuel) d (some layer) ≡ some (n + 1, d) =
          rw (get_depth, child, up, above) refl in
        let same_depth : m ≡ n + 1 =
          ap depth_in (sym (get_depth_more cairo fuel d (some layer) (m, d) own) ∙ stepped) in
        depth_of-found i layer m e own
        ∙ same_depth
        ∙ ap (λ x. x + 1) (sym (depth_of-found j parent n at_j above))
  ]

  -- Pointers in the order of the comparator: none is the parent of one behind it.
  not-IsParent :
      (rank : ℕ → ℕ)
      → IsAcyclic cairo rank d
      → ((i : ℕ) → rank i < fuel)
      → (a b : Option ℕ) → value cairo fuel d a b ≤ℤ pos 0
      → ¬ IsParent a b
  not-IsParent rank acyclic bound none b h = λ x. x
  not-IsParent rank acyclic bound (some j) none h = λ x. x
  not-IsParent rank acyclic bound (some j) (some i) h = λ x.
      let deeper = child_depth rank i j acyclic bound x in
      let before =
        compared-Precedes (depth_of cairo fuel d j) (depth_of cairo fuel d i)
          (parent_of cairo fuel d j) (parent_of cairo fuel d i) (z_of cairo fuel d j)
          (z_of cairo fuel d i) h in
      omega (arith, deeper, before)

module _ (cairo : Cairo) (library : Qsort) where
  -- Where `qsort` sorts, each layer has no parent or an allocated one of a smaller rank below the
  -- fuel, and no two layers have Zs whose difference overflows an `int`, sorting the layers for flattening succeeds and leaves the display. It moves the pointers around,
  -- so that every layer stands before its parent.
  pub render_order-children_first :
      (fuel : ℕ) (rank : ℕ → ℕ) (d : Display cairo)
      → Sorts library
      → IsAcyclic cairo rank d
      → ((i : ℕ) → rank i < fuel)
      → ZsFit cairo d
      → (order : List (Option ℕ)) × (library.qsort
            (layer_comparator cairo fuel)
            (pointers_from cairo max_layers 0 d)
            d
          ≡ some (order, d))
        × Permᴰ (pointers_from cairo max_layers 0 d) order
        × AllPairs (λ a b. ¬ IsParent cairo fuel d a b) order
  render_order-children_first fuel rank d sorting acyclic bound zs =
      let pointers = pointers_from cairo max_layers 0 d in
      let allocated = pointers-Allocated cairo fuel d max_layers 0 in
      let found = depths cairo fuel d rank acyclic bound in
      let pure =
        All-map pointers
          (λ a p.
            All-map pointers
              (λ b q.
                comparator-value cairo fuel d a b found (parents_fit cairo d rank acyclic) zs p q)
              allocated)
          allocated in
      let (order, run, perm, sorted) =
        sorting.sorts (layer_comparator cairo fuel) (value cairo fuel d) pointers d
          (value-IsOrder cairo fuel d) pure in
      (order, run, perm, AllPairs-map order (not-IsParent cairo fuel d rank acyclic bound) sorted)
