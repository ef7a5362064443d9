-- ===== src/Parser.antt =====
-- The instruction parser of libguac: src/libguac/parser.c, `guac_parser_append` and what it changes.
-- A `char*` into `__instructionbuf` is an offset. `__element_length` is kept as the 32 bits of the C
-- `int`: it counts with wrap-around, and its sign is its highest bit. A byte is a number below 256.
pub mod Reader
pub mod Scans
pub mod Wire
pub mod Elements
pub mod Bounds
use guacenc.Base.{
  ℕ, zero, suc, ◌+◌, ◌-◌, ◌*◌, ◌%◌, ◌^◌, Bool, true, false, not, ◌&&◌, Option, none, some, List, [],
  ◌∷◌, length, take, drop, set, get_elem?, ltb, leb, ◌==◌, if◌then◌else◌,
}
use guacenc.Utf8.{charsize}

-- `guac_parse_state`
pub data State : Type 0 where
  parse_length parse_content parse_complete parse_error : State

-- `guac_parser`. `opcode` is the offset that the pointer holds, `argv` the index in `__elementv`.
pub record Parser : Type 0 where
  pub opcode : Option ℕ
  pub argc : ℕ
  pub argv : Option ℕ
  pub state : State
  pub element_length : ℕ
  pub elementc : ℕ
  pub elementv : List ℕ
  pub unparsed_start : ℕ
  pub unparsed_end : ℕ
  pub instructionbuf : List ℕ

-- GUAC_INSTRUCTION_MAX_LENGTH, GUAC_INSTRUCTION_MAX_ELEMENTS, and the size of `__instructionbuf`.
abbrev pub max_length : ℕ
max_length = 8192

abbrev pub max_elements : ℕ
max_elements = 128

abbrev pub buffer_size : ℕ
buffer_size = 32768

-- `guac_parser_reset`
unfoldable pub reset : Parser → Parser
reset p = record p {
  opcode = none;
  argc = 0;
  state = parse_length;
  elementc = 0;
  element_length = 0;
}

-- `guac_parser_alloc`, given what `malloc` returned: the bytes and the pointers that happen to stand
-- in the new memory, or nothing.
unfoldable pub alloc : Option (List ℕ × List ℕ) → Option Parser
unfolding reset
alloc none = none
alloc (some (bytes, pointers)) = some (
    reset (record {
      opcode = none;
      argc = 0;
      argv = none;
      state = parse_length;
      element_length = 0;
      elementc = 0;
      elementv = pointers;
      unparsed_start = 0;
      unparsed_end = 0;
      instructionbuf = bytes;
    }))

-- How the loop over the digits of an element's length ends: out of bytes, behind the period, or at a
-- byte that is neither. `used` counts the bytes taken.
pub data LengthScan : Type 0 where
  more : (parsed_length : ℕ) → LengthScan
  period : (parsed_length used : ℕ) → LengthScan
  bad : LengthScan

abbrev pub is_digit : ℕ → Bool
is_digit c = leb b'0' c && leb c b'9'

unfoldable pub scan_length : List ℕ → ℕ → ℕ → LengthScan
scan_length [] parsed_length used = more parsed_length
scan_length (c ∷ cs) parsed_length used = elim (is_digit c) [
  | true ↦ scan_length cs ((parsed_length * 10 + c - b'0') % 2 ^ 32) (used + 1)
  | false ↦ if c == b'.' then period parsed_length (used + 1) else bad
]

-- How the loop over an element's content ends: waiting for bytes, or at the byte `c` behind the last
-- character, which stands at `at`.
pub data ContentScan : Type 0 where
  pause : (element_length used : ℕ) → ContentScan
  terminator : (c at used : ℕ) → ContentScan

abbrev pub is_negative : ℕ → Bool
is_negative n = leb (2 ^ 31) n

-- Each round takes a byte at least, so as many rounds as there are bytes are enough.
unfoldable pub scan_content : ℕ → List ℕ → ℕ → ℕ → ContentScan
scan_content zero cs element_length used = pause element_length used
scan_content (suc rounds) [] element_length used = pause element_length used
scan_content (suc rounds) (c ∷ cs) element_length used = elim (is_negative element_length) [
  | true ↦ pause element_length used
  | false ↦ elim (ltb (length cs + 1) (charsize c)) [
    | true ↦ pause element_length used
    | false ↦ elim (element_length == 0) [
      | true ↦ terminator c used (used + charsize c)
      | false ↦
          scan_content rounds (drop (charsize c - 1) cs) ((element_length + 2 ^ 32 - 1) % 2 ^ 32)
            (used + charsize c)
    ]
  ]
]

-- What `guac_parser_append` returns, and the parser that it leaves.
abbrev pub Appended : Type 0
Appended = ℕ × Parser

abbrev pub fail : Parser → Appended
fail p = (0, record p { state = parse_error })

-- `*char_buffer = '\0'` at an offset. A store behind the end of the array, which C does not define, makes it
-- longer.
unfoldable pub store_nul : List ℕ → ℕ → List ℕ
store_nul [] at = 0 ∷ []
store_nul (byte ∷ bytes) zero = 0 ∷ bytes
store_nul (byte ∷ bytes) (suc at) = byte ∷ store_nul bytes at

-- The end of an element, at offset `at` in the buffer, with `used` bytes taken in all.
pub end_element : Parser → ℕ → ℕ → ℕ → Appended
end_element p c at used =
    let p' = record p { instructionbuf = store_nul p.instructionbuf at; element_length = 0 } in
    if c == b';'
    then (
      used,
      record p' {
        state = parse_complete;
        opcode = get_elem? p.elementv 0;
        argv = some 1;
        argc = p.elementc - 1;
      },
    )
    else if c == b','
    then (used, record p' { state = parse_length })
    else fail p'

-- Behind the loop over the content, which began at offset `at` with `before` bytes taken.
after_content : Parser → ℕ → ℕ → ContentScan → Appended
after_content p at before (pause element_length used) =
    (before + used, record p { element_length = element_length })
after_content p at before (terminator c offset used) = end_element p c (at + offset) (before + used)

-- The part of `guac_parser_append` that parses content: `window` holds the bytes that are left, the
-- first of them at offset `at`, behind `before` bytes that this call has taken.
append_content : Parser → ℕ → ℕ → List ℕ → Appended
append_content p at before window =
    after_content p at before (scan_content (length window) window p.element_length 0)

abbrev pub too_long : ℕ → Bool
too_long n = not (is_negative n) && ltb max_length n

-- Behind the loop over the digits.
after_length : Parser → ℕ → List ℕ → LengthScan → Appended
after_length p at window bad = fail p
after_length p at window (more parsed_length) =
    if too_long parsed_length
    then fail p
    else (length window, record p { element_length = parsed_length })
after_length p at window (period parsed_length used) =
    let p' = record p {
      state = parse_content;
      elementv = set p.elementv p.elementc (at + used);
      elementc = p.elementc + 1;
    } in
    if too_long parsed_length
    then fail p'
    else append_content (record p' { element_length = parsed_length }) (at + used) used
        (drop used window)

-- The part that parses a length.
append_length : Parser → ℕ → List ℕ → Appended
append_length p at window = after_length p at window (scan_length window p.element_length 0)

abbrev pub is_complete : State → Bool
is_complete parse_complete = true
is_complete _ = false

abbrev pub is_error : State → Bool
is_error parse_error = true
is_error _ = false

by_state : State → Parser → ℕ → List ℕ → Appended
by_state parse_length p at window = append_length p at window
by_state parse_content p at window = append_content p at 0 window
by_state parse_complete p at window = (0, p)
by_state parse_error p at window = (0, p)

-- `guac_parser_append` at the `size` bytes from offset `at` of the parser's own buffer.
pub append : Parser → ℕ → ℕ → Appended
append p at size =
    if p.elementc == max_elements && not (is_complete p.state)
    then fail p
    else by_state p.state p at (take size (drop at p.instructionbuf))
