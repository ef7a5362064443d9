-- ===== src/Examples/Drawing.antt =====
-- Drawing with a Cairo that keeps the list of calls.
use mathlib.Core.Option.{none-ne-some, some_inj}
use guacenc.Base.Int.{ltb_ℤ, pos, negsuc, ◌<ℤ◌, ◌≤ℤ◌, ◌*ℤ◌}
use guacenc.Base64.{base64_value, length-decode_base64, decode_loop, decode_base64}
use guacenc.Buffer.{Cairo, Buffer, alloc, fit, resize, copy}
use guacenc.Buffer.Sizes.{IsConsistent, alloc-IsConsistent, resize-IsConsistent, fit-size, copy_lem}
use guacenc.Display.{Display, Layer, layer_alloc}
use guacenc.Display.Depth.{get_depth, get_depth-le, get_depth-none, IsAcyclic}
use guacenc.Display.Dispatch.{display_alloc}
use guacenc.Base.{
  ◌↔◌, ℕ, zero, suc, ◌+◌, ◌*◌, ◌≤◌, ◌≡◌, refl, sym, ap, inl, inr, Option, none, some, [], ◌∷◌,
  arith, length,
}

-- A surface is the number of calls so far.
abbrev recorder : Cairo
recorder = record {
  Canvas = ℕ;
  stride_for_width = λ w. w *ℤ pos 4;
  calloc = λ n. ltb_ℤ (pos 0) n;
  create = λ image w h stride. 0;
  blank = λ w h. 0;
  call = λ c n. n + 1;
}

decoded : decode_base64 (b'Z' ∷ b'm' ∷ b'9' ∷ b'v' ∷ []) ≡ b'f' ∷ b'o' ∷ b'o' ∷ []
unfolding decode_base64 decode_loop base64_value
decoded = refl

length-decode_base64_example : 4 * length (decode_base64 (b'Z' ∷ b'g' ∷ b'=' ∷ b'=' ∷ [])) ≤ 12
length-decode_base64_example = length-decode_base64 (b'Z' ∷ b'g' ∷ b'=' ∷ b'=' ∷ [])

fit-size_example :
    (pos 3 <ℤ (fit recorder (alloc recorder) (pos 3) (pos 4)).width)
    × (pos 4 <ℤ (fit recorder (alloc recorder) (pos 3) (pos 4)).height)
    × ((alloc recorder).width ≤ℤ (fit recorder (alloc recorder) (pos 3) (pos 4)).width)
    × ((alloc recorder).height ≤ℤ (fit recorder (alloc recorder) (pos 3) (pos 4)).height)
    × (((fit recorder (alloc recorder) (pos 3) (pos 4)).width ≤ℤ pos 9)
        ↔ ((pos 3 <ℤ pos 9) × ((alloc recorder).width ≤ℤ pos 9)))
    × (((fit recorder (alloc recorder) (pos 3) (pos 4)).height ≤ℤ pos 9)
        ↔ ((pos 4 <ℤ pos 9) × ((alloc recorder).height ≤ℤ pos 9)))
    × ((fit recorder (alloc recorder) (pos 3) (pos 4)).autosize ≡ (alloc recorder).autosize)
fit-size_example = fit-size recorder (alloc recorder) (pos 3) (pos 4) (pos 9)

abbrev painted : Buffer recorder
painted = resize recorder (alloc recorder) (pos 8) (pos 6)

copy_lem_example :
    (b : Buffer recorder) × (copy recorder (alloc recorder) painted ≡ some b)
    × IsConsistent recorder b
    × (b.width ≡ painted.width)
    × (b.height ≡ painted.height)
    × (b.autosize ≡ (alloc recorder).autosize)
copy_lem_example =
    copy_lem recorder (alloc recorder) painted (alloc-IsConsistent recorder)
      (resize-IsConsistent recorder (alloc recorder) (pos 8) (pos 6) (alloc-IsConsistent recorder))

-- A default layer, and layer 1 on it; layer 2 on itself.
abbrev root : Layer recorder
root = record (layer_alloc recorder) { parent_index = negsuc 0 }

abbrev looped : Layer recorder
looped = record (layer_alloc recorder) { parent_index = pos 2 }

two_layers : ℕ → Option (Layer recorder)
two_layers zero = some root
two_layers (suc zero) = some (layer_alloc recorder)
two_layers (suc (suc i)) = none

abbrev stacked : Display recorder
stacked = record (display_alloc recorder) { layers = two_layers }

stacked-IsAcyclic : IsAcyclic recorder (λ i. i) stacked
unfolding two_layers
stacked-IsAcyclic zero layer e = inl (ap (λ l. l.parent_index) (sym (some_inj.0 e)))
stacked-IsAcyclic (suc zero) layer e =
    inr (0, root, ap (λ l. l.parent_index) (sym (some_inj.0 e)), omega arith, refl, omega arith)
stacked-IsAcyclic (suc (suc i)) layer e = absurd (none-ne-some layer e)

get_depth-le_example :
    (depth : ℕ) × (get_depth recorder 2 stacked (some (layer_alloc recorder))
      ≡ some (depth, stacked))
    × (depth ≤ 1)
unfolding two_layers
get_depth-le_example =
    get_depth-le recorder 2 (λ i. i) stacked 1 (layer_alloc recorder) stacked-IsAcyclic refl
      (omega arith)

abbrev cyclic : Display recorder
cyclic = record (display_alloc recorder) { layers = λ i. some looped }

get_depth-none_example : get_depth recorder 1000 cyclic (some looped) ≡ none
get_depth-none_example = get_depth-none recorder 1000 cyclic 2 looped (omega arith) refl refl
