-- ===== src/KeyLog/Trimming.antt =====
-- Trimming the released keys from the end, and a new key at the end: src/guaclog/state.c.
use guacenc.Base.{
  ℕ, zero, suc, ◌≤◌, ◌≡◌, refl, sym, ap, ◌∙◌, inl, inr, true, false, some, List, [], ◌∷◌, arith,
  Bool-cases, Option-cases, length, get_elem?, take, get_elem?-none,
}
use guacenc.Base.Int.{ℤ}
use guacenc.KeyLog.{Key, trim_loop, trim_keys}
use guacenc.KeyLog.Tracking.{is_down, is_tracked, Unique, AllModifiers}

-- The last entry, if there is one, is pressed.
abbrev pub EndsPressed : List Key → Type 0
EndsPressed [] = zero ≡ zero
EndsPressed (key ∷ []) = key.pressed ≡ true
EndsPressed (key ∷ other ∷ keys) = EndsPressed (other ∷ keys)

pub is_down-take :
    (keys : List Key) (i : ℕ) (key : Key) (s : ℤ)
    → get_elem? keys i ≡ some key
    → key.pressed ≡ false
    → is_down s (take (suc i) keys) ≡ is_down s (take i keys)
is_down-take [] i key s e p = absurd (ground (arith, e))
is_down-take (k ∷ keys) zero key s e p = ground arith
is_down-take (k ∷ keys) (suc i) key s e p = ground (arith, is_down-take keys i key s e p)

pub EndsPressed-take :
    (keys : List Key) (i : ℕ) (key : Key)
    → get_elem? keys i ≡ some key
    → key.pressed ≡ true
    → EndsPressed (take (suc i) keys)
EndsPressed-take [] i key e p = absurd (ground (arith, e))
EndsPressed-take (k ∷ keys) zero key e p = ground arith
EndsPressed-take (k ∷ []) (suc i) key e p = absurd (ground (arith, e))
EndsPressed-take (k ∷ other ∷ keys) (suc i) key e p = EndsPressed-take (other ∷ keys) i key e p

pub is_tracked-take :
    (keys : List Key) (i : ℕ) (s : ℤ)
    → is_tracked s keys ≡ false
    → is_tracked s (take i keys) ≡ false
is_tracked-take keys zero s h = refl
is_tracked-take [] (suc i) s h = refl
is_tracked-take (k ∷ keys) (suc i) s h = ground (arith, is_tracked-take keys i s)

pub Unique-take : (keys : List Key) (i : ℕ) → Unique keys → Unique (take i keys)
Unique-take keys zero u = refl
Unique-take [] (suc i) u = refl
Unique-take (k ∷ keys) (suc i) (new, rest) =
    (is_tracked-take keys i k.keydef.keysym new, Unique-take keys i rest)

pub AllModifiers-take : (keys : List Key) (i : ℕ) → AllModifiers keys → AllModifiers (take i keys)
AllModifiers-take keys zero u = refl
AllModifiers-take [] (suc i) u = refl
AllModifiers-take (k ∷ keys) (suc i) (m, rest) = (m, AllModifiers-take keys i rest)

-- The loop keeps a number of entries, the last of them pressed, and drops only released ones.
pub trim_loop_lem :
    (i : ℕ) (keys : List Key)
    → i ≤ length keys
    → (j : ℕ) × (trim_loop i keys ≡ take j keys)
      × EndsPressed (take j keys)
      × ((s : ℤ) → is_down s (take j keys) ≡ is_down s (take i keys))
unfolding trim_loop
trim_loop_lem zero keys h = (0, refl, refl, λ s. refl)
trim_loop_lem (suc i) keys h = elim (Option-cases (get_elem? keys i)) [
  | inl e ↦ absurd (let short = get_elem?-none keys i e in omega arith)
  | inr (key, e) ↦ elim (Bool-cases key.pressed) [
    | inl down ↦ (suc i, rw (trim_loop, e, down), EndsPressed-take keys i key e down, λ s. refl)
    | inr up ↦
        let (j, same, ends, held) = trim_loop_lem i keys (omega arith) in
        (j, rw (trim_loop, e, up) same, ends, λ s. held s ∙ sym (is_down-take keys i key s e up))
  ]
]

pub take-all : (keys : List Key) → take (length keys) keys ≡ keys
take-all [] = refl
take-all (k ∷ keys) = ap (λ l. k ∷ l) (take-all keys)

pub is_down-trim : (keys : List Key) (s : ℤ) → is_down s (trim_keys keys) ≡ is_down s keys
unfolding trim_keys
is_down-trim keys s =
    let (j, same, ends, held) = trim_loop_lem (length keys) keys (omega arith) in
    rw same (held s ∙ ap (is_down s) (take-all keys))
