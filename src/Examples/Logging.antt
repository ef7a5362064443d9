-- ===== src/Examples/Logging.antt =====
-- Key events on a table lookup that finds the first match.
use guacenc.Base.{
  ℕ, ◌+◌, ◌-◌, ◌*◌, ◌≡◌, refl, ap, true, false, Option, none, some, List, [], ◌∷◌, ◌++◌, arith,
  if◌then◌else◌,
}
use guacenc.Base.Int.{ℤ, pos, eqb_ℤ, ◌-ℤ◌}
use guacenc.Utf8.{write}
use guacenc.KeyLog.{
  unicode_key, unicode_name, trailing, initial_mask, c_string, log_entry, is_shortcut, key_names,
  known_key, same_keysym, add_key, replace_key, trim_keys, trim_loop, Libc, Key, State, update_key,
  keydef_alloc,
}
use guacenc.KeyLog.Known.{Keydef}
use guacenc.KeyLog.Tracking.{is_down, entry}
use guacenc.KeyLog.Adding.{IsTracking}
use guacenc.KeyLog.Held.{update_key-IsTracking, update_key-is_down}
use guacenc.KeyLog.Typing.{type_text, type_text_lem, utf8, AllTypable}

abbrev find : (Keydef → ℤ) → List Keydef → Option Keydef
find compare [] = none
find compare (k ∷ ks) =
    let rest = find compare ks in if eqb_ℤ (compare k) (pos 0) then some k else rest

abbrev decimal : List ℕ → ℤ
decimal cs = pos (go cs 0)
  where
    go : List ℕ → ℕ → ℕ
    go [] n = n
    go (c ∷ cs) n = go cs (n * 10 + (c - b'0'))

abbrev libc : Libc
libc = record { bsearch = find; format_hex = λ k. b'0' ∷ b'x' ∷ []; atoi = decimal }

abbrev ctrl : Key
ctrl =
    entry
      (record {
        keysym = pos 0xFFE3;
        name = b'C' ∷ b't' ∷ b'r' ∷ b'l' ∷ [];
        value = none;
        modifier = true;
      })
      true

abbrev shift : Key
shift =
    entry
      (record {
        keysym = pos 0xFFE1;
        name = b'S' ∷ b'h' ∷ b'i' ∷ b'f' ∷ b't' ∷ [];
        value = some [];
        modifier = true;
      })
      true

abbrev shifted : State
shifted = record { output = b'$' ∷ []; keys = shift ∷ [] }

abbrev control : State
control = record { output = []; keys = ctrl ∷ [] }

shifted-IsTracking : IsTracking shifted.keys
shifted-IsTracking = record {
  unique = (refl, refl);
  modifiers = (refl, refl);
  ends = refl;
  fits = omega arith;
}

-- Ctrl-C in the log.
shortcut :
    update_key libc control (pos b'c') true
    ≡ some (record control { output = b'<' ∷ b'C' ∷ b't' ∷ b'r' ∷ b'l' ∷ b'c' ∷ b'>' ∷ [] })
unfolding update_key keydef_alloc known_key ◌-ℤ◌ unicode_key unicode_name trailing initial_mask
    c_string log_entry is_shortcut key_names
shortcut = refl

-- Pressing the second Shift key.
shift_pressed : State
shift_pressed = record shifted { keys = shift ∷ entry (keydef_alloc libc (pos 0xFFE2)) true ∷ [] }

second_shift : update_key libc shifted (pos 0xFFE2) true ≡ some shift_pressed
unfolding update_key add_key replace_key keydef_alloc known_key ◌-ℤ◌ same_keysym trim_keys trim_loop
    shift_pressed
second_shift = refl

update_key-IsTracking_example :
    IsTracking shift_pressed.keys
    × ((text : List ℕ) × (shift_pressed.output ≡ shifted.output ++ text))
update_key-IsTracking_example =
    update_key-IsTracking libc shifted shift_pressed (pos 0xFFE2) true shifted-IsTracking
      second_shift

meta : keydef_alloc libc (pos 0xFFE7) ≡ record {
  keysym = pos 0xFFE7;
  name = b'M' ∷ b'e' ∷ b't' ∷ b'a' ∷ [];
  value = none;
  modifier = true;
}
unfolding keydef_alloc known_key ◌-ℤ◌
meta = refl

update_key-is_down_example :
    (state' : State) × (update_key libc shifted (pos 0xFFE7) true ≡ some state')
    × (state'.output ≡ shifted.output)
    × ((s : ℤ)
        → is_down s state'.keys
          ≡ (if same_keysym (pos 0xFFE7) s then true else is_down s shifted.keys))
update_key-is_down_example =
    update_key-is_down libc shifted (pos 0xFFE7) true shifted-IsTracking (omega arith)
      (ap (λ d. d.modifier) meta) (ap (λ d. d.keysym) meta)

abbrev text : List ℕ
text = b'a' ∷ 0xE9 ∷ 0x20AC ∷ []

text-AllTypable : AllTypable libc text
unfolding known_key ◌-ℤ◌
text-AllTypable = (
  ground arith,
  ground arith,
  refl,
  (ground arith, ground arith, refl, (ground arith, ground arith, refl, refl)),
)

shifted_free : is_shortcut shifted.keys ≡ false
unfolding is_shortcut
shifted_free = refl

text-utf8 : utf8 libc text ≡ b'a' ∷ 0xC3 ∷ 0xA9 ∷ 0xE2 ∷ 0x82 ∷ 0xAC ∷ []
unfolding write
text-utf8 = refl

type_text_example :
    type_text libc shifted text
    ≡ some (record shifted { output = shifted.output ++ utf8 libc text })
type_text_example = type_text_lem libc shifted text text-AllTypable shifted_free
