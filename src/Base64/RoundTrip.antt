-- ===== src/Base64/RoundTrip.antt =====
-- What a socket sends in base64 is what the decoder of src/libguac/protocol.c reads.
use guacenc.Base.{
  ℕ, ◌+◌, ◌-◌, ◌*◌, ◌/◌, ◌%◌, ◌^◌, ◌<◌, ◌≡◌, refl, Bool, true, false, not, ◌&&◌, ◌||◌, List, [],
  ◌∷◌, arith, leb, ◌==◌, if◌then◌else◌,
}
use guacenc.Base.Int.{negsuc, pos}
use guacenc.Base.Bits.{passes, passes-lt, bit_or_six, bit_or_four, bit_or_two}
use Prim.Native.Nat.{bit_or}
use guacenc.Output.Encoding.{base64}
use guacenc.Base64.{decode_base64, base64_value, decode_loop}
use guacenc.Output.{base64_character, triplet_output}

-- The bytes of a block of data.
abbrev pub AllBytes : List ℕ → Type 0
AllBytes [] = Unit {0}
AllBytes (b ∷ bs) = (b < 256) × AllBytes bs

-- Of each six bits, the character stands for them, and ends nothing.
abbrev is_character_of : ℕ → Bool
is_character_of k =
    let c = base64_character k in (base64_value c == k) && not ((c == 0) || (c == b'='))

characters : passes is_character_of 64 ≡ true
unfolding passes base64_character base64_value
characters = refl

character_lem :
    (k : ℕ)
    → k < 64
    → (base64_value (base64_character k) ≡ k)
      × (((base64_character k == 0) || (base64_character k == b'=')) ≡ false)
character_lem k h = let t = passes-lt is_character_of 64 k h characters in ground (arith, t)

-- One character is read.
decode_loop-character :
    (k : ℕ) (rest : List ℕ) (bits_read value : ℕ)
    → k < 64
    → decode_loop (base64_character k ∷ rest) bits_read value ≡ (
        let value' = value * 64 % 2 ^ 32 + k in
        if leb 8 (bits_read + 6)
        then (value' / 2 ^ ((bits_read + 6) % 8) % 256)
          ∷ decode_loop rest (bits_read + 6 - 8) value'
        else decode_loop rest (bits_read + 6) value')
unfolding decode_loop
decode_loop-character k rest bits_read value h =
    let (v, stop) = character_lem k h in
    let six : value * 64 % 2 ^ 32 ≡ value % 2 ^ 26 * 64 = omega arith in
    let joined : bit_or (value * 64 % 2 ^ 32) k ≡ value * 64 % 2 ^ 32 + k =
      rw six (bit_or_six (value % 2 ^ 26) k h) in
    rw (decode_loop, stop, v, joined) refl

-- The value once another character is read.
abbrev value_after : ℕ → ℕ → ℕ
value_after value k = value * 64 % 2 ^ 32 + k

-- Four characters give three bytes.
decode_loop-four :
    (j k l m : ℕ) (rest : List ℕ) (value : ℕ)
    → j < 64
    → k < 64
    → l < 64
    → m < 64
    → decode_loop
        (base64_character j ∷ base64_character k ∷ base64_character l ∷ base64_character m ∷ rest)
        0
        value
      ≡ (value_after (value_after value j) k / 16 % 256)
        ∷ (value_after (value_after (value_after value j) k) l / 4 % 256)
        ∷ (value_after (value_after (value_after (value_after value j) k) l) m / 1 % 256)
        ∷ decode_loop rest 0 (value_after (value_after (value_after (value_after value j) k) l) m)
decode_loop-four j k l m rest value hj hk hl hm =
    rw
      (
        decode_loop-character j _ 0 value hj,
        decode_loop-character k _ 6 (value_after value j) hk,
        decode_loop-character l _ 4 (value_after (value_after value j) k) hl,
        decode_loop-character m rest 2 (value_after (value_after (value_after value j) k) l) hm,
      )
      refl

triplet_output-three :
    (a b c : ℕ)
    → a < 256
    → b < 256
    → c < 256
    → triplet_output (pos a) (pos b) (pos c)
      ≡ base64_character (a / 4)
        ∷ base64_character (a % 4 * 16 + b / 16)
        ∷ base64_character (b % 16 * 4 + c / 64)
        ∷ base64_character (c % 64)
        ∷ []
unfolding triplet_output
triplet_output-three a b c ha hb hc =
    let low : a % 2 ^ 32 ≡ a = omega arith in
    let middle : b % 2 ^ 32 ≡ b = omega arith in
    let high : c % 2 ^ 32 ≡ c = omega arith in
    let first : a / 4 % 64 ≡ a / 4 = omega arith in
    let second : b / 16 % 16 ≡ b / 16 = omega arith in
    let third : c / 64 % 4 ≡ c / 64 = omega arith in
    let ok_b : leb 0 (b + 0) ≡ true = ground arith in
    let ok_c : leb 0 (c + 0) ≡ true = ground arith in
    rw
      (
        triplet_output,
        ok_b,
        ok_c,
        low,
        middle,
        high,
        first,
        second,
        third,
        bit_or_four (a % 4) (b / 16) (omega arith),
        bit_or_two (b % 16) (c / 64) (omega arith),
      )
      refl

-- The three bytes, whatever the value was before.
first_byte :
    (value a k : ℕ)
    → a < 256
    → k < 16
    → value_after (value_after value (a / 4)) (a % 4 * 16 + k) / 16 % 256 ≡ a
first_byte value a k ha hk = omega arith

second_byte :
    (value b k l : ℕ)
    → b < 256
    → k < 4
    → value_after (value_after value (l * 16 + b / 16)) (b % 16 * 4 + k) / 4 % 256 ≡ b
second_byte value b k l hb hk = omega arith

third_byte :
    (value c l : ℕ)
    → c < 256
    → value_after (value_after value (l * 4 + c / 64)) (c % 64) / 1 % 256 ≡ c
third_byte value c l hc = omega arith

padding : (rest : List ℕ) (bits_read value : ℕ) → decode_loop (b'=' ∷ rest) bits_read value ≡ []
unfolding decode_loop
padding rest bits_read value = refl

triplet_output-two :
    (a b : ℕ)
    → a < 256
    → b < 256
    → triplet_output (pos a) (pos b) (negsuc 0)
      ≡ base64_character (a / 4)
        ∷ base64_character (a % 4 * 16 + b / 16)
        ∷ base64_character (b % 16 * 4 + 0)
        ∷ b'='
        ∷ []
unfolding triplet_output
triplet_output-two a b ha hb =
    let low : a % 2 ^ 32 ≡ a = omega arith in
    let middle : b % 2 ^ 32 ≡ b = omega arith in
    let first : a / 4 % 64 ≡ a / 4 = omega arith in
    let second : b / 16 % 16 ≡ b / 16 = omega arith in
    let third : b % 16 * 4 + 0 ≡ b % 16 * 4 = omega arith in
    let ok_b : leb 0 (b + 0) ≡ true = ground arith in
    rw
      (
        triplet_output,
        ok_b,
        low,
        middle,
        first,
        second,
        third,
        bit_or_four (a % 4) (b / 16) (omega arith),
      )
      refl

triplet_output-one :
    (a : ℕ)
    → a < 256
    → triplet_output (pos a) (negsuc 0) (negsuc 0)
      ≡ base64_character (a / 4) ∷ base64_character (a % 4 * 16 + 0) ∷ b'=' ∷ b'=' ∷ []
unfolding triplet_output
triplet_output-one a ha =
    let low : a % 2 ^ 32 ≡ a = omega arith in
    let first : a / 4 % 64 ≡ a / 4 = omega arith in
    let second : a % 4 * 16 + 0 ≡ a % 4 * 16 = omega arith in
    rw (triplet_output, low, first, second) refl

decode_loop-base64 :
    (content : List ℕ) (value : ℕ)
    → AllBytes content
    → decode_loop (base64 content) 0 value ≡ content
unfolding decode_loop
decode_loop-base64 [] value h = refl
decode_loop-base64 (a ∷ []) value (ha, _) =
    rw
      (
        triplet_output-one a ha,
        decode_loop-character (a / 4) _ 0 value (omega arith),
        decode_loop-character (a % 4 * 16 + 0) _ 6 (value_after value (a / 4)) (omega arith),
        first_byte value a 0 ha (omega arith),
      )
      refl
decode_loop-base64 (a ∷ b ∷ []) value (ha, (hb, _)) =
    let v = value_after value (a / 4) in
    let w = value_after v (a % 4 * 16 + b / 16) in
    rw
      (
        triplet_output-two a b ha hb,
        decode_loop-character (a / 4) _ 0 value (omega arith),
        decode_loop-character (a % 4 * 16 + b / 16) _ 6 v (omega arith),
        decode_loop-character (b % 16 * 4 + 0) _ 4 w (omega arith),
        first_byte value a (b / 16) ha (omega arith),
        second_byte v b 0 (a % 4) hb (omega arith),
      )
      refl
decode_loop-base64 (a ∷ b ∷ c ∷ more) value (ha, (hb, (hc, h))) =
    let v = value_after value (a / 4) in
    let w = value_after v (a % 4 * 16 + b / 16) in
    let x = value_after w (b % 16 * 4 + c / 64) in
    rw
      (
        triplet_output-three a b c ha hb hc,
        decode_loop-four (a / 4) (a % 4 * 16 + b / 16) (b % 16 * 4 + c / 64) (c % 64) (base64 more)
            value (omega arith) (omega arith) (omega arith) (omega arith),
        first_byte value a (b / 16) ha (omega arith),
        second_byte v b (c / 64) (a % 4) hb (omega arith),
        third_byte w c (b % 16) hc,
        decode_loop-base64 more (value_after x (c % 64)) h,
      )
      refl

-- Data of bytes that a socket sends in base64 is what `guac_protocol_decode_base64` makes of it.
pub decode_base64-base64 :
    (content : List ℕ) → AllBytes content → decode_base64 (base64 content) ≡ content
unfolding decode_base64
decode_base64-base64 content h = decode_loop-base64 content 0 h
