-- ===== src/Utf8.antt =====
-- UTF-8 as libguac reads and writes it: src/libguac/unicode.c.
-- A byte is a number below 256. `x & (2^k - 1)` is `x % 2 ^ k` and `x >> k` is `x / 2 ^ k`; `|` is the
-- native `bit_or`. A string is the list of its bytes, with the terminator left off or written as 0.
pub mod Sizes
pub mod RoundTrip
use Prim.Native.Nat.{bit_or}
use guacenc.Base.{
  ℕ, zero, suc, ◌+◌, ◌-◌, ◌*◌, ◌/◌, ◌%◌, Bool, true, false, Option, none, some, List, [], ◌∷◌,
  length, take, ltb, leb, ◌==◌, if◌then◌else◌,
}

-- `guac_utf8_charsize`
unfoldable pub charsize : ℕ → ℕ
charsize c =
    if bit_or c 0x7F == 0x7F
    then 1
    else if bit_or c 0x1F == 0xDF
    then 2
    else if bit_or c 0x0F == 0xEF
    then 3
    else if bit_or c 0x07 == 0xF7
    then 4
    else 1

-- The loop of `guac_utf8_strlen` over the rest of the string, `skip` and `length`.
strlen_loop : List ℕ → ℕ → ℕ → ℕ
strlen_loop [] skip n = n
strlen_loop (c ∷ str) skip n = elim (c == 0) [
  | true ↦ n
  | false ↦ elim (ltb 0 skip) [
    | true ↦ strlen_loop str (skip - 1) n
    | false ↦ strlen_loop str (charsize c - 1) (n + 1)
  ]
]

-- `guac_utf8_strlen`
unfoldable pub strlen : List ℕ → ℕ
unfolding strlen_loop
strlen str = strlen_loop str 0 0

-- The trailing bytes of `guac_utf8_write`, last first: `n` rounds put them before `out`, and the
-- codepoint is shifted down.
unfoldable pub trailing : ℕ → ℕ → List ℕ → ℕ × List ℕ
trailing zero codepoint out = (codepoint, out)
trailing (suc n) codepoint out = trailing n (codepoint / 64) (bit_or 0x80 (codepoint % 64) ∷ out)

-- What `guac_utf8_write` does once `mask` and `bytes` are known.
unfoldable pub encode : ℕ → ℕ → ℕ → ℕ → List ℕ
unfolding trailing
encode mask bytes codepoint room =
    if ltb room bytes
    then []
    else (let (rest, out) = trailing (bytes - 1) codepoint [] in bit_or mask rest ∷ out)

-- `guac_utf8_write` at a codepoint that is not negative, with room for `room` bytes: the bytes that it
-- writes. What it returns is their number.
unfoldable pub write : ℕ → ℕ → List ℕ
unfolding encode
write codepoint room =
    if leb room 0
    then []
    else if leb codepoint 0x7F
    then encode 0x00 1 codepoint room
    else if leb codepoint 0x7FF
    then encode 0xC0 2 codepoint room
    else if leb codepoint 0xFFFF
    then encode 0xE0 3 codepoint room
    else if leb codepoint 0x1FFFFF
    then encode 0xF0 4 codepoint room
    else b'?' ∷ []

-- The initial byte in `guac_utf8_read`: the bits that it gives, and the size of the character.
lead : ℕ → Option (ℕ × ℕ)
lead initial =
    if bit_or initial 0x7F == 0x7F
    then some (initial, 1)
    else if bit_or initial 0x1F == 0xDF
    then some (initial % 32, 2)
    else if bit_or initial 0x0F == 0xEF
    then some (initial % 16, 3)
    else if bit_or initial 0x07 == 0xF7
    then some (initial % 8, 4)
    else none

-- The loop over the trailing bytes in `guac_utf8_read`.
join : ℕ → List ℕ → ℕ
join result [] = result
join result (b ∷ bs) = join (bit_or (result * 64) (b % 64)) bs

-- `guac_utf8_read` on a buffer of `length utf8` bytes: what it returns, and what it stores in
-- `*codepoint`, if it stores anything.
unfoldable pub read : List ℕ → ℕ × Option ℕ
unfolding lead join
read [] = (0, none)
read (initial ∷ utf8) = elim (lead initial) [
  | none ↦ (1, some 0xFFFD)
  | some (result, bytes) ↦
      if ltb (length utf8 + 1) bytes
      then (0, none)
      else (bytes, some (join result (take (bytes - 1) utf8)))
]
