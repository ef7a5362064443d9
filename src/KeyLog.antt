-- ===== src/KeyLog.antt =====
-- The interpreter of key events: src/guaclog/keydef.c, state.c, instruction-key.c and instructions.c.
-- The standard library's `bsearch`, the conversion "0x%X" and `atoi` are parameters.
pub mod Known
pub mod Tracking
pub mod Trimming
pub mod Adding
pub mod Held
pub mod Typing
use Prim.Native.Nat.{bit_or}
use guacenc.Base.Int.{ℤ, pos, negsuc, ◌-ℤ◌, eqb_ℤ, ltb_ℤ}
use guacenc.KeyLog.Known.{Keydef, known_keys}
use guacenc.Base.{
  ℕ, zero, suc, ◌+◌, ◌-◌, ◌*◌, ◌/◌, ◌%◌, ◌^◌, ◌≤◌, ◌<◌, min, ◌≡◌, refl, sym, ap, ◌∙◌, ◌≢◌, ◌↔◌, ◌⊎◌,
  inl, inr, Bool, true, false, not, ◌&&◌, ◌||◌, Option, none, some, List, [], ◌∷◌, ◌++◌, map,
  append-nil, append_assoc, arith, ltb, leb, ◌==◌, if◌then◌else◌, Bool-cases, Option-cases, tests,
  ltb→lt, lt→ltb, leb→le, ==_iff, length, get_elem?, set, get_or, take, drop, replicate,
  length-append, length-set, length-take, length-drop, length-replicate, length-map,
  get_elem?-set_self, get_elem?-set_ne, take-append-drop, take_left, drop_left, set_middle,
}

-- What the standard library is used for.
pub record Libc : Type 0 where
  pub bsearch : (Keydef → ℤ) → List Keydef → Option Keydef
  pub format_hex : ℤ → List ℕ
  pub atoi : List ℕ → ℤ

-- `guaclog_key_state`
pub record Key : Type 0 where
  pub keydef : Keydef
  pub pressed : Bool

-- `guaclog_state`: what has been printed, and the first `active_keys` entries of `key_states`.
pub record State : Type 0 where
  pub output : List ℕ
  pub keys : List Key

-- GUACLOG_MAX_KEYS
abbrev pub max_keys : ℕ
max_keys = 256

-- A C string: the bytes before the terminator.
unfoldable pub c_string : List ℕ → List ℕ
c_string [] = []
c_string (c ∷ cs) = if c == 0 then [] else c ∷ c_string cs

-- The trailing bytes of `guaclog_get_unicode_key`, last first.
unfoldable pub trailing : ℕ → ℕ → List ℕ → ℕ × List ℕ
trailing zero codepoint out = (codepoint, out)
trailing (suc n) codepoint out = trailing n (codepoint / 64) (bit_or 0x80 (codepoint % 64) ∷ out)

-- The initial byte mask and the number of bytes of a codepoint.
unfoldable pub initial_mask : ℕ → ℕ × ℕ
initial_mask codepoint =
    if leb codepoint 0x007F then (0x00, 1) else if leb codepoint 0x7FF then (0xC0, 2) else (0xE0, 3)

-- The name that `guaclog_get_unicode_key` gives to a codepoint.
unfoldable pub unicode_name : ℕ → List ℕ
unfolding trailing initial_mask c_string
unicode_name codepoint =
    let (mask, bytes) = initial_mask codepoint in
    let (rest, out) = trailing (bytes - 1) codepoint [] in c_string (bit_or mask rest ∷ out)

-- `guaclog_get_unicode_key`; `(keysym | 0xFFFF) == 0x0100FFFF` says that the bits above the lower 16
-- are 0x0100.
unfoldable pub unicode_key : ℤ → Option Keydef
unicode_key (negsuc n) = none
unicode_key (pos keysym) =
    if ltb 0xFF keysym && not (keysym / 0x10000 == 0x0100)
    then none
    else (let name = unicode_name (keysym % 0x10000) in
        some record { keysym = pos keysym; name = name; value = some name; modifier = false })

-- `key->keydef->keysym == keydef->keysym`
unfoldable pub same_keysym : ℤ → ℤ → Bool
same_keysym a b = eqb_ℤ a b

-- `guaclog_state_add_key`: the loop over the tracked keys, none when the key is not among them.
unfoldable pub replace_key : List Key → Keydef → Bool → Option (List Key)
replace_key [] keydef pressed = none
replace_key (key ∷ keys) keydef pressed =
    let rest = replace_key keys keydef pressed in
    if same_keysym key.keydef.keysym keydef.keysym
    then some (record { keydef = keydef; pressed = pressed } ∷ keys)
    else elim rest [ none ↦ none | some keys' ↦ some (key ∷ keys') ]

-- `guaclog_state_add_key`: none when it fails.
unfoldable pub add_key : List Key → Keydef → Bool → Option (List Key)
add_key keys keydef pressed = elim (replace_key keys keydef pressed) [
  | some keys' ↦ some keys'
  | none ↦
      if length keys == max_keys
      then none
      else some (keys ++ (record { keydef = keydef; pressed = pressed } ∷ []))
]

-- The loop of `guaclog_state_trim_keys`, with `i + 1` keys to look at.
unfoldable pub trim_loop : ℕ → List Key → List Key
trim_loop zero keys = []
trim_loop (suc i) keys = elim (get_elem? keys i) [
  | none ↦ trim_loop i keys
  | some key ↦ elim key.pressed [ true ↦ take (suc i) keys | false ↦ trim_loop i keys ]
]

-- `guaclog_state_trim_keys`
unfoldable pub trim_keys : List Key → List Key
trim_keys keys = trim_loop (length keys) keys

-- `guaclog_state_is_shortcut`
unfoldable pub is_shortcut : List Key → Bool
is_shortcut [] = false
is_shortcut (key ∷ keys) = elim key.keydef.value [ none ↦ true | some v ↦ is_shortcut keys ]

-- The names of the tracked keys, with "+" between them.
unfoldable pub key_names : ℕ → List Key → List ℕ
key_names i [] = []
key_names i (key ∷ keys) =
    (if i == 0 then key.keydef.name else b'+' ∷ key.keydef.name) ++ key_names (i + 1) keys

-- What is printed when a key that is no modifier is pressed, none where "%s" is given a null pointer.
unfoldable pub log_entry : List Key → Keydef → Option (List ℕ)
log_entry keys keydef =
    if is_shortcut keys
    then elim keydef.value [
      | none ↦ none
      | some value ↦ some ((b'<' ∷ key_names 0 keys) ++ (value ++ (b'>' ∷ [])))
    ]
    else elim keydef.value [
      | some value ↦ some value
      | none ↦ some ((b'<' ∷ keydef.name) ++ (b'>' ∷ []))
    ]

module _ (libc : Libc) where
  -- `guaclog_get_known_key` with `guaclog_keydef_bsearch_compare`
  unfoldable pub known_key : ℤ → Option Keydef
  known_key keysym = libc.bsearch (λ current. keysym -ℤ current.keysym) known_keys

  -- `guaclog_get_unknown_key`
  abbrev pub unknown_key : ℤ → Keydef
  unknown_key keysym = record {
    keysym = keysym;
    name = libc.format_hex keysym;
    value = none;
    modifier = false;
  }

  -- `guaclog_keydef_alloc`
  unfoldable pub keydef_alloc : ℤ → Keydef
  keydef_alloc keysym = elim (known_key keysym) [
    | some keydef ↦ keydef
    | none ↦ elim (unicode_key keysym) [ some keydef ↦ keydef | none ↦ unknown_key keysym ]
  ]

  -- `guaclog_state_update_key`: none where the behaviour is undefined. It returns 0 otherwise.
  unfoldable pub update_key : State → ℤ → Bool → Option State
  update_key state keysym pressed =
      let keydef = keydef_alloc keysym in
      elim keydef.modifier [
        | true ↦ elim (add_key state.keys keydef pressed) [
          | none ↦ some state
          | some keys ↦ some (record state { keys = trim_keys keys })
        ]
        | false ↦ elim pressed [
          | false ↦ some state
          | true ↦ elim (log_entry state.keys keydef) [
            | none ↦ none
            | some text ↦ some (record state { output = state.output ++ text })
          ]
        ]
      ]

  -- `guaclog_handle_key`: what it returns, and the state.
  unfoldable pub handle_key : State → List (List ℕ) → Option (ℕ × State)
  handle_key state (keysym ∷ pressed ∷ more) =
      elim (update_key state (libc.atoi keysym) (not (eqb_ℤ (libc.atoi pressed) (pos 0)))) [
        | none ↦ none
        | some state' ↦ some (0, state')
      ]
  handle_key state argv = some (1, state)
