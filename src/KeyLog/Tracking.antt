-- ===== src/KeyLog/Tracking.antt =====
-- The keys that the interpreter tracks: src/guaclog/state.c.
use guacenc.Base.{
  zero, suc, ◌≡◌, refl, ap, ◌∙◌, ◌⊎◌, inl, inr, Bool, true, false, ◌||◌, none, some, List, [], ◌∷◌,
  arith, if◌then◌else◌, Bool-cases, length,
}
use guacenc.Base.Int.{ℤ, eqb_ℤ, eqb_ℤ→eq}
use guacenc.KeyLog.Known.{Keydef}
use guacenc.KeyLog.{Key, replace_key, same_keysym}

-- Whether a keysym is held down, by the first entry that has it.
abbrev pub is_down : ℤ → List Key → Bool
is_down keysym [] = false
is_down keysym (key ∷ keys) =
    if same_keysym key.keydef.keysym keysym then key.pressed else is_down keysym keys

abbrev pub is_tracked : ℤ → List Key → Bool
is_tracked keysym [] = false
is_tracked keysym (key ∷ keys) = same_keysym key.keydef.keysym keysym || is_tracked keysym keys

abbrev pub Unique : List Key → Type 0
Unique [] = zero ≡ zero
Unique (key ∷ keys) = (is_tracked key.keydef.keysym keys ≡ false) × Unique keys

abbrev pub AllModifiers : List Key → Type 0
AllModifiers [] = zero ≡ zero
AllModifiers (key ∷ keys) = (key.keydef.modifier ≡ true) × AllModifiers keys

-- The last entry, if there is one, is pressed.
abbrev pub EndsPressed : List Key → Type 0
EndsPressed [] = zero ≡ zero
EndsPressed (key ∷ []) = key.pressed ≡ true
EndsPressed (key ∷ other ∷ keys) = EndsPressed (other ∷ keys)

pub same_keysym_refl : (a : ℤ) → same_keysym a a ≡ true
unfolding same_keysym
same_keysym_refl a = ground arith

pub same_keysym_sym : (a b : ℤ) → same_keysym a b ≡ same_keysym b a
unfolding same_keysym
same_keysym_sym a b = ground arith

pub same_keysym-cases : (a b : ℤ) → ((same_keysym a b ≡ true) × (a ≡ b)) ⊎ (same_keysym a b ≡ false)
unfolding same_keysym
same_keysym-cases a b = elim (Bool-cases (eqb_ℤ a b)) [
  | inl e ↦ inl (e, eqb_ℤ→eq a b e)
  | inr e ↦ inr e
]

abbrev pub entry : Keydef → Bool → Key
entry keydef pressed = record { keydef = keydef; pressed = pressed }

-- The list with the entry for the key replaced.
abbrev pub replaced : List Key → Keydef → Bool → List Key
replaced [] d p = []
replaced (key ∷ keys) d p =
    if same_keysym key.keydef.keysym d.keysym then entry d p ∷ keys else key ∷ replaced keys d p

pub replace_key_lem :
    (keys : List Key) (d : Keydef) (p : Bool)
    → replace_key keys d p ≡ (if is_tracked d.keysym keys then some (replaced keys d p) else none)
unfolding replace_key
replace_key_lem [] d p = refl
replace_key_lem (key ∷ keys) d p =
    let ih = replace_key_lem keys d p in
    elim (same_keysym-cases key.keydef.keysym d.keysym) [
      | inl (same, e) ↦ rw same
      | inr other ↦ elim (Bool-cases (is_tracked d.keysym keys)) [
        | inl old ↦ rw (other, ih, old)
        | inr new ↦ rw (other, ih, new)
      ]
    ]

pub length-replaced :
    (keys : List Key) (d : Keydef) (p : Bool) → length (replaced keys d p) ≡ length keys
length-replaced [] d p = refl
length-replaced (key ∷ keys) d p = elim (same_keysym-cases key.keydef.keysym d.keysym) [
  | inl (same, e) ↦ rw same
  | inr other ↦ rw other (ap suc (length-replaced keys d p))
]

pub is_tracked-replaced :
    (keys : List Key) (d : Keydef) (p : Bool) (s : ℤ)
    → is_tracked s (replaced keys d p) ≡ is_tracked s keys
is_tracked-replaced [] d p s = refl
is_tracked-replaced (key ∷ keys) d p s = elim (same_keysym-cases key.keydef.keysym d.keysym) [
  | inl (same, e) ↦ rw (same, e)
  | inr other ↦ rw (other, is_tracked-replaced keys d p s)
]

pub is_down-replaced :
    (keys : List Key) (d : Keydef) (p : Bool) (s : ℤ)
    → is_tracked d.keysym keys ≡ true
    → is_down s (replaced keys d p) ≡ (if same_keysym d.keysym s then p else is_down s keys)
is_down-replaced [] d p s h = ground arith
is_down-replaced (key ∷ keys) d p s h = elim (same_keysym-cases key.keydef.keysym d.keysym) [
  | inl (same, e) ↦ elim (Bool-cases (same_keysym d.keysym s)) [
    | inl hit ↦ rw (same, hit)
    | inr miss ↦ rw (same, e, miss)
  ]
  | inr other ↦
      let ih = is_down-replaced keys d p s (rw other at h) in
      elim (same_keysym-cases d.keysym s) [
        | inl (hit, same) ↦ rw (other, ih, ← same, same_keysym_refl d.keysym, other)
        | inr miss ↦ rw (other, ih, miss)
      ]
]

pub Unique-replaced :
    (keys : List Key) (d : Keydef) (p : Bool) → Unique keys → Unique (replaced keys d p)
Unique-replaced [] d p u = u
Unique-replaced (key ∷ keys) d p (new, rest) = elim (same_keysym-cases key.keydef.keysym d.keysym) [
  | inl (same, e) ↦ rw same (rw e at new, rest)
  | inr other ↦
      rw other (is_tracked-replaced keys d p key.keydef.keysym ∙ new, Unique-replaced keys d p rest)
]

pub AllModifiers-replaced :
    (keys : List Key) (d : Keydef) (p : Bool)
    → d.modifier ≡ true
    → AllModifiers keys
    → AllModifiers (replaced keys d p)
AllModifiers-replaced [] d p m a = a
AllModifiers-replaced (key ∷ keys) d p m (k, rest) =
    elim (same_keysym-cases key.keydef.keysym d.keysym) [
      | inl (same, e) ↦ rw same (m, rest)
      | inr other ↦ rw other (k, AllModifiers-replaced keys d p m rest)
    ]
