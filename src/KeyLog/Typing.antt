-- ===== src/KeyLog/Typing.antt =====
-- The text that is typed and the log of it: src/guaclog/keydef.c, with the encoder of src/libguac/unicode.c.
use Prim.Native.Nat.{bit_or}
use guacenc.Base.{
  ℕ, zero, suc, ◌+◌, ◌/◌, ◌%◌, ◌≤◌, ◌<◌, ◌≡◌, refl, ◌∙◌, inl, inr, Bool, true, false, not, ◌&&◌,
  Option, none, some, List, [], ◌∷◌, ◌++◌, append-nil, append_assoc, arith, ltb, leb, ◌==◌,
  if◌then◌else◌, Bool-cases, ◌>>=◌,
}
use guacenc.Base.Int.{ℤ, pos}
use guacenc.Base.Bits.{zero_bit_or, passes, passes-lt}
use guacenc.Utf8.{trailing as trailing_utf8, encode, write}
use guacenc.KeyLog.{
  Keydef, initial_mask, Libc, State, is_shortcut, log_entry, known_key, keydef_alloc, update_key,
  c_string, trailing, unicode_name, unicode_key,
}

trailing_lem : (n cp : ℕ) (out : List ℕ) → trailing n cp out ≡ trailing_utf8 n cp out
unfolding trailing trailing_utf8
trailing_lem zero cp out = refl
trailing_lem (suc n) cp out = trailing_lem n (cp / 64) (bit_or 0x80 (cp % 64) ∷ out)

abbrev nonzero : ℕ → ℕ → Bool
nonzero mask x = not (bit_or mask x == 0)

trail_table : passes (nonzero 0x80) 64 ≡ true
unfolding passes
trail_table = refl

two_table : passes (nonzero 0xC0) 32 ≡ true
unfolding passes
two_table = refl

three_table : passes (nonzero 0xE0) 16 ≡ true
unfolding passes
three_table = refl

byte-ne-zero :
    (mask bound x : ℕ)
    → passes (nonzero mask) bound ≡ true
    → x < bound
    → (bit_or mask x == 0) ≡ false
byte-ne-zero mask bound x table h = ground (arith, passes-lt (nonzero mask) bound x h table)

unicode_name_one : (cp : ℕ) → 0 < cp → cp < 0x80 → unicode_name cp ≡ cp ∷ []
unfolding unicode_name trailing c_string initial_mask
unicode_name_one cp p h = let z = zero_bit_or cp in ground (arith, p, h, z)

unicode_name_two :
    (cp : ℕ)
    → 0x80 ≤ cp
    → cp < 0x800
    → unicode_name cp ≡ bit_or 0xC0 (cp / 64) ∷ bit_or 0x80 (cp % 64) ∷ []
unfolding unicode_name trailing c_string initial_mask
unicode_name_two cp l h =
    let lead = byte-ne-zero 0xC0 32 (cp / 64) two_table (omega arith) in
    let low = byte-ne-zero 0x80 64 (cp % 64) trail_table (omega arith) in
    ground (arith, l, h, lead, low)

unicode_name_three :
    (cp : ℕ)
    → 0x800 ≤ cp
    → cp < 0x10000
    → unicode_name cp
      ≡ bit_or 0xE0 (cp / 64 / 64) ∷ bit_or 0x80 (cp / 64 % 64) ∷ bit_or 0x80 (cp % 64) ∷ []
unfolding unicode_name trailing c_string initial_mask
unicode_name_three cp l h =
    let lead = byte-ne-zero 0xE0 16 (cp / 64 / 64) three_table (omega arith) in
    let middle = byte-ne-zero 0x80 64 (cp / 64 % 64) trail_table (omega arith) in
    let low = byte-ne-zero 0x80 64 (cp % 64) trail_table (omega arith) in
    ground (arith, l, h, lead, middle, low)

-- The name of a Unicode key is what libguac writes for its codepoint.
unicode_name-write : (cp : ℕ) → 0 < cp → cp < 0x10000 → unicode_name cp ≡ write cp 3
unfolding write encode trailing_utf8
unicode_name-write cp positive small = ground (
  arith,
  unicode_name_one cp positive,
  unicode_name_two cp,
  unicode_name_three cp,
  zero_bit_or cp,
)

-- The keysym of a codepoint: itself up to 0xFF, and 0x01000000 + codepoint above.
abbrev pub unicode_keysym : ℕ → ℤ
unicode_keysym cp = if leb cp 0xFF then pos cp else pos (0x01000000 + cp)

abbrev character : ℕ → Keydef
character cp = record {
  keysym = unicode_keysym cp;
  name = write cp 3;
  value = some (write cp 3);
  modifier = false;
}

unicode_key_lem :
    (cp : ℕ) → 0 < cp → cp < 0x10000 → unicode_key (unicode_keysym cp) ≡ some (character cp)
unfolding unicode_key
unicode_key_lem cp positive small =
    let name = unicode_name-write cp positive small in
    elim (Bool-cases (leb cp 0xFF)) [
      | inl latin ↦
          let low : cp % 0x10000 ≡ cp = omega arith in
          let inside : (ltb 0xFF cp && not (cp / 0x10000 == 0x0100)) ≡ false =
            ground (arith, latin) in
          rw (latin, inside, low, name)
      | inr other ↦
          let low : (0x01000000 + cp) % 0x10000 ≡ cp = omega arith in
          let inside : (ltb 0xFF (0x01000000 + cp) && not ((0x01000000 + cp) / 0x10000 == 0x0100))
              ≡ false =
            ground arith in
          rw (other, inside, low, name)
    ]

module _ (libc : Libc) where
  -- Characters of the basic plane whose keysyms have no entry in the table.
  abbrev pub AllTypable : List ℕ → Type 0
  AllTypable [] = zero ≡ zero
  AllTypable (cp ∷ text) =
      (0 < cp) × (cp < 0x10000) × (known_key libc (unicode_keysym cp) ≡ none) × AllTypable text

  -- Each key is pressed and released.
  unfoldable pub type_text : State → List ℕ → Option State
  type_text state [] = some state
  type_text state (cp ∷ text) = do
    pressed ← update_key libc state (unicode_keysym cp) true
    released ← update_key libc pressed (unicode_keysym cp) false
    type_text released text

  abbrev pub utf8 : List ℕ → List ℕ
  utf8 [] = []
  utf8 (cp ∷ text) = write cp 3 ++ utf8 text

  press_lem :
      (state : State) (cp : ℕ)
      → 0 < cp
      → cp < 0x10000
      → known_key libc (unicode_keysym cp) ≡ none
      → is_shortcut state.keys ≡ false
      → (update_key libc state (unicode_keysym cp) true
          ≡ some (record state { output = state.output ++ write cp 3 }))
        × ((s : State) → update_key libc s (unicode_keysym cp) false ≡ some s)
  unfolding update_key keydef_alloc log_entry
  press_lem state cp positive small unknown free =
      let alloc : keydef_alloc libc (unicode_keysym cp) ≡ character cp =
        rw (keydef_alloc, unknown, unicode_key_lem cp positive small) in
      (rw (update_key, alloc, log_entry, free, alloc), λ s. rw (update_key, alloc))

  -- Characters of the basic plane whose keysyms have no entry in the table of keys: while
  -- every tracked key has a value, pressing and releasing their keys one by one appends the
  -- UTF-8 of the text to the log and leaves the tracked keys as they were.
  pub type_text_lem :
      (state : State) (text : List ℕ)
      → AllTypable text
      → is_shortcut state.keys ≡ false
      → type_text state text ≡ some (record state { output = state.output ++ utf8 text })
  unfolding type_text
  type_text_lem state [] typable free = rw (append-nil state.output)
  type_text_lem state (cp ∷ text) (positive, small, unknown, more) free =
      let (press, release) = press_lem state cp positive small unknown free in
      rw (press, release)
        (type_text_lem (record state { output = state.output ++ write cp 3 }) text more free
          ∙ rw (append_assoc state.output (write cp 3) (utf8 text)))
