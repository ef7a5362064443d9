-- ===== src/Base64.antt =====
-- Base64 as libguac reads it: src/libguac/protocol.c.
pub mod RoundTrip
use Prim.Native.Nat.{bit_or}
use guacenc.Base.{
  ℕ, ◌+◌, ◌-◌, ◌*◌, ◌/◌, ◌%◌, ◌^◌, ◌≤◌, Bool, ◌&&◌, ◌||◌, List, [], ◌∷◌, arith, leb, ◌==◌,
  if◌then◌else◌, length,
}

abbrev between : ℕ → ℕ → ℕ → Bool
between low high c = leb low c && leb c high

-- `__guac_base64_value`
unfoldable pub base64_value : ℕ → ℕ
base64_value c =
    if between b'A' b'Z' c
    then c - b'A'
    else if between b'a' b'z' c
    then c - b'a' + 26
    else if between b'0' b'9' c
    then c - b'0' + 52
    else if c == b'+'
    then 62
    else if c == b'/'
    then 63
    else 0

-- The loop of `guac_protocol_decode_base64`: `bits_read`, and `value` in 32 bits; the bytes that it
-- writes, whose number it returns. They stand behind what has been read, so they change nothing unread.
unfoldable pub decode_loop : List ℕ → ℕ → ℕ → List ℕ
decode_loop [] bits_read value = []
decode_loop (current ∷ input) bits_read value =
    let value' = bit_or (value * 64 % 2 ^ 32) (base64_value current) in
    let bits_read' = bits_read + 6 in
    let byte = value' / 2 ^ (bits_read' % 8) % 256 in
    let with_byte = decode_loop input (bits_read' - 8) value' in
    let without = decode_loop input bits_read' value' in
    if (current == 0) || (current == b'=')
    then []
    else if leb 8 bits_read'
    then byte ∷ with_byte
    else without

-- `guac_protocol_decode_base64`
unfoldable pub decode_base64 : List ℕ → List ℕ
decode_base64 input = decode_loop input 0 0

length-decode_loop :
    (input : List ℕ) (bits_read value : ℕ)
    → 8 * length (decode_loop input bits_read value) ≤ 6 * length input + bits_read
unfolding decode_loop
length-decode_loop [] bits_read value = ground arith
length-decode_loop (c ∷ input) bits_read value =
    let value' = bit_or (value * 64 % 2 ^ 32) (base64_value c) in
    let with_byte = length-decode_loop input (bits_read + 6 - 8) value' in
    let without = length-decode_loop input (bits_read + 6) value' in
    ground (arith, with_byte, without)

-- Decoding writes at most three bytes for four characters.
pub length-decode_base64 : (input : List ℕ) → 4 * length (decode_base64 input) ≤ 3 * length input
unfolding decode_base64
length-decode_base64 input = let h = length-decode_loop input 0 0 in omega arith
