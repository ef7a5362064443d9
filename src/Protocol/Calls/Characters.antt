-- ===== src/Protocol/Calls/Characters.antt =====
-- Base64 is ASCII, of at most 8192 characters for one blob.
use guacenc.Base.{
  ℕ, ◌*◌, ◌/◌, ◌%◌, ◌<◌, refl, Bool, true, false, ◌&&◌, List, [], ◌∷◌, ◌++◌, arith, ltb,
  if◌then◌else◌,
}
use Prim.Native.Nat.{bit_or}
use guacenc.Base.Int.{ℤ, pos, negsuc, bits32, leb_ℤ}
use guacenc.Base.Bits.{passes, passes-lt, bit_or_four, bit_or_two}
use guacenc.Output.{base64_character, triplet_output}
use guacenc.Output.Encoding.{base64}
use guacenc.Protocol.Elements.{AllAscii}

character-ascii : (k : ℕ) → k < 64 → (0 < base64_character k) × (base64_character k < 128)
unfolding passes base64_character
character-ascii k h =
    let t =
      passes-lt (λ i. ltb 0 (base64_character i) && ltb (base64_character i) 128) 64 k h refl in
    (ground (arith, t), ground (arith, t))

AllAscii-append : (bs cs : List ℕ) → AllAscii bs → AllAscii cs → AllAscii (bs ++ cs)
AllAscii-append [] cs h k = k
AllAscii-append (b ∷ bs) cs h k = (h.0, h.1, AllAscii-append bs cs h.2 k)

equals-ascii : AllAscii (b'=' ∷ [])
equals-ascii = (omega arith, omega arith, tt)

equals_twice : AllAscii (b'=' ∷ b'=' ∷ [])
equals_twice = (omega arith, omega arith, equals-ascii)

AllAscii-if :
    (t : Bool) (bs cs : List ℕ) → AllAscii bs → AllAscii cs → AllAscii (if t then bs else cs)
AllAscii-if true bs cs h k = h
AllAscii-if false bs cs h k = k

ascii_cons : (k : ℕ) (bs : List ℕ) → k < 64 → AllAscii bs → AllAscii (base64_character k ∷ bs)
ascii_cons k bs h all = let (low, high) = character-ascii k h in (low, high, all)

triplet_output-ascii : (a b c : ℤ) → AllAscii (triplet_output a b c)
unfolding triplet_output
triplet_output-ascii a b c =
    let second : bit_or (bits32 a % 4 * 16) (bits32 b / 16 % 16) < 64 =
      omega (arith, bit_or_four (bits32 a % 4) (bits32 b / 16 % 16) (omega arith)) in
    let third : bit_or (bits32 b % 16 * 4) (bits32 c / 64 % 4) < 64 =
      omega (arith, bit_or_two (bits32 b % 16) (bits32 c / 64 % 4) (omega arith)) in
    let last =
      ascii_cons (bit_or (bits32 b % 16 * 4) (bits32 c / 64 % 4))
        (base64_character (bits32 c % 64) ∷ []) third
        (ascii_cons (bits32 c % 64) [] (omega arith) tt) in
    let padded = ascii_cons (bits32 b % 16 * 4) (b'=' ∷ []) (omega arith) equals-ascii in
    let short = ascii_cons (bits32 a % 4 * 16) (b'=' ∷ b'=' ∷ []) (omega arith) equals_twice in
    let full = ascii_cons _ _ second (AllAscii-if (leb_ℤ (pos 0) c) _ _ last padded) in
    ascii_cons (bits32 a / 4 % 64) _ (omega arith) (AllAscii-if (leb_ℤ (pos 0) b) _ _ full short)

pub base64-ascii : (content : List ℕ) → AllAscii (base64 content)
base64-ascii [] = tt
base64-ascii (a ∷ []) = triplet_output-ascii (pos a) (negsuc 0) (negsuc 0)
base64-ascii (a ∷ b ∷ []) = triplet_output-ascii (pos a) (pos b) (negsuc 0)
base64-ascii (a ∷ b ∷ c ∷ more) =
    AllAscii-append (triplet_output (pos a) (pos b) (pos c)) (base64 more)
      (triplet_output-ascii (pos a) (pos b) (pos c)) (base64-ascii more)
