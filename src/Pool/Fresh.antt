-- ===== src/Pool/Fresh.antt =====
-- No integer of a pool is in use twice.
use guacenc.Base.Int.{pos, ◌+ℤ◌}
use guacenc.Base.{
  ℕ, ◌+◌, ◌≡◌, refl, sym, ap, ◌∙◌, inl, inr, List, [], ◌∷◌, ◌++◌, arith, ltb, ◌==◌, if◌then◌else◌,
  Bool-cases,
}
use guacenc.Pool.{Pool, pool_alloc, next_from, next_int, free_int}

abbrev once : ℕ → ℕ → ℕ
once x v = if x == v then 1 else 0

abbrev pub count : ℕ → List ℕ → ℕ
count v [] = 0
count v (x ∷ xs) = once x v + count v xs

count-append : (v : ℕ) (xs ys : List ℕ) → count v (xs ++ ys) ≡ count v xs + count v ys
count-append v [] ys = omega arith
count-append v (x ∷ xs) ys = omega (arith, count-append v xs ys)

-- The pools that a user can reach who frees only what it has been given, with what it holds.
pub data Reachable (size : ℕ) : Pool → List ℕ → Type 0 where
  start : Reachable size (pool_alloc size) []
  taken :
      (p : Pool) (held : List ℕ)
      → Reachable size p held
      → Reachable size (next_int p).1 ((next_int p).0 ∷ held)
  given :
      (p : Pool) (before after : List ℕ) (v : ℕ)
      → Reachable size p (before ++ (v ∷ after))
      → Reachable size (free_int p v) (before ++ after)

-- Each value below `next_value` is free or held, once; no other value is.
abbrev IsPartition : Pool → List ℕ → Type 0
IsPartition p held = (v : ℕ) → count v p.free + count v held ≡ (if ltb v p.next_value then 1 else 0)

taken-IsPartition :
    (free : List ℕ) (p : Pool) (held : List ℕ)
    → p.free ≡ free
    → IsPartition p held
    → IsPartition (next_from free p).1 ((next_from free p).0 ∷ held)
unfolding next_from
taken-IsPartition [] p held e part v = let h = part v in ground arith
taken-IsPartition (x ∷ rest) p held e part v =
    let h : count v (x ∷ rest) + count v held ≡ (if ltb v p.next_value then 1 else 0) =
      ap (λ l. count v l + count v held) (sym e) ∙ part v in
    elim (Bool-cases (ltb p.next_value p.min_size)) [
      | inl room ↦ rw room (let g = part v in ground arith)
      | inr full ↦ rw full (omega arith)
    ]

Reachable-IsPartition :
    {size : ℕ} {p : Pool} {held : List ℕ} → Reachable size p held → IsPartition p held
unfolding pool_alloc next_int free_int
Reachable-IsPartition start v = ground arith
Reachable-IsPartition (taken p held r) v =
    taken-IsPartition p.free (record p { active = p.active +ℤ pos 1 }) held refl
      (Reachable-IsPartition r) v
Reachable-IsPartition (given p before after w r) v =
    let h = Reachable-IsPartition r v in
    ground (
      arith,
      count-append v p.free (w ∷ []),
      count-append v before after,
      count-append v before (w ∷ after),
    )

next_from-fresh :
    (free : List ℕ) (p : Pool) (held : List ℕ)
    → p.free ≡ free
    → IsPartition p held
    → count (next_from free p).0 held ≡ 0
unfolding next_from
next_from-fresh [] p held e part = let h = part p.next_value in ground arith
next_from-fresh (x ∷ rest) p held e part =
    let g : count x (x ∷ rest) + count x held ≡ (if ltb x p.next_value then 1 else 0) =
      ap (λ l. count x l + count x held) (sym e) ∙ part x in
    elim (Bool-cases (ltb p.next_value p.min_size)) [
      | inl room ↦ rw room (let h = part p.next_value in ground arith)
      | inr full ↦ rw full (ground arith)
    ]

-- For a user that frees only what it holds, the integer that a pool gives next is one that it does not hold.
pub next_int-fresh :
    {size : ℕ} {p : Pool} {held : List ℕ} → Reachable size p held → count (next_int p).0 held ≡ 0
unfolding next_int
next_int-fresh {p = p} {held = held} r =
    next_from-fresh p.free (record p { active = p.active +ℤ pos 1 }) held refl
      (Reachable-IsPartition r)
