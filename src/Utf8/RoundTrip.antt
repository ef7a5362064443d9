-- ===== src/Utf8/RoundTrip.antt =====
-- Reading back what was written.
use Prim.Native.Nat.{bit_or}
use guacenc.Base.{
  take_left, ℕ, ◌+◌, ◌-◌, ◌*◌, ◌/◌, ◌%◌, ◌≤◌, ◌<◌, ◌≡◌, ◌≢◌, refl, ap, ◌∙◌, Bool, true, false, ◌&&◌,
  Option, none, some, List, [], ◌∷◌, ◌++◌, arith, length, length-append, ◌==◌, ==_iff,
}
use guacenc.Base.Bits.{passes, passes-lt, bit_or_six}
use guacenc.Utf8.{write, lead, join, read}

-- The bytes that `write` makes, as sums.
trail_table : passes (λ x. bit_or 0x80 x == 128 + x) 64 ≡ true
unfolding passes
trail_table = refl

trail_byte : (x : ℕ) → bit_or 0x80 (x % 64) ≡ 128 + x % 64
trail_byte x = (==_iff _ _).0 (passes-lt _ 64 (x % 64) (omega arith) trail_table)

abbrev says : Option (ℕ × ℕ) → ℕ → ℕ → Bool
says none x n = false
says (some (y, m)) x n = (y == x) && (m == n)

says-eq : (o : Option (ℕ × ℕ)) (x n : ℕ) → says o x n ≡ true → o ≡ some (x, n)
says-eq o x n h = ground arith

lead_one_table : passes (λ x. says (lead (bit_or 0x00 x)) x 1) 128 ≡ true
unfolding passes lead
lead_one_table = refl

lead_two_table : passes (λ x. says (lead (bit_or 0xC0 x)) x 2) 32 ≡ true
unfolding passes lead
lead_two_table = refl

lead_three_table : passes (λ x. says (lead (bit_or 0xE0 x)) x 3) 16 ≡ true
unfolding passes lead
lead_three_table = refl

lead_four_table : passes (λ x. says (lead (bit_or 0xF0 x)) x 4) 8 ≡ true
unfolding passes lead
lead_four_table = refl

-- One round of the loop in `read` undoes one round of the loop in `write`.
join_byte :
    (q : ℕ) (x : ℕ) (bs : List ℕ) → join q (bit_or 0x80 (x % 64) ∷ bs) ≡ join (q * 64 + x % 64) bs
unfolding join
join_byte q x bs =
    let low : bit_or 0x80 (x % 64) % 64 ≡ x % 64 = omega (arith, trail_byte x) in
    rw (low, bit_or_six q (x % 64) (omega arith))

-- `read` at a character whose initial byte announces the trailing bytes that follow it.
read-lead :
    (initial result : ℕ) (tail rest : List ℕ)
    → lead initial ≡ some (result, length tail + 1)
    → read (initial ∷ (tail ++ rest)) ≡ (length tail + 1, some (join result tail))
unfolding read
read-lead initial result tail rest e =
    ground (arith, e, take_left tail rest, length-append tail rest, exact)
  where
    exact : length tail + 1 - 1 ≡ length tail
    exact = omega arith

read-one : (x : ℕ) (rest : List ℕ) → x < 0x80 → read (bit_or 0x00 x ∷ rest) ≡ (1, some x)
unfolding join
read-one x rest h =
    read-lead (bit_or 0x00 x) x [] rest (says-eq _ _ _ (passes-lt _ 128 x h lead_one_table))

join-nil : (q x : ℕ) → q ≡ x → join q [] ≡ x
unfolding join
join-nil q x e = e

read-two :
    (x : ℕ) (rest : List ℕ)
    → x < 0x800
    → read (bit_or 0xC0 (x / 64) ∷ bit_or 0x80 (x % 64) ∷ rest) ≡ (2, some x)
read-two x rest h =
    read-lead _ (x / 64) (bit_or 0x80 (x % 64) ∷ []) rest
      (says-eq _ _ _ (passes-lt _ 32 (x / 64) (omega arith) lead_two_table))
    ∙ ap (λ k. (2, some k)) (join_byte (x / 64) x [] ∙ join-nil _ x (omega arith))

read-three :
    (x : ℕ) (rest : List ℕ)
    → x < 0x10000
    → read (bit_or 0xE0 (x / 64 / 64) ∷ bit_or 0x80 (x / 64 % 64) ∷ bit_or 0x80 (x % 64) ∷ rest)
      ≡ (3, some x)
read-three x rest h =
    read-lead _ (x / 64 / 64) (bit_or 0x80 (x / 64 % 64) ∷ bit_or 0x80 (x % 64) ∷ []) rest
      (says-eq _ _ _ (passes-lt _ 16 (x / 64 / 64) (omega arith) lead_three_table))
    ∙ ap (λ k. (3, some k))
        (join_byte (x / 64 / 64) (x / 64) _ ∙ join_byte _ x [] ∙ join-nil _ x (omega arith))

read-four :
    (x : ℕ) (rest : List ℕ)
    → x < 0x200000
    → read (
        bit_or 0xF0 (x / 64 / 64 / 64)
        ∷ bit_or 0x80 (x / 64 / 64 % 64)
        ∷ bit_or 0x80 (x / 64 % 64)
        ∷ bit_or 0x80 (x % 64)
        ∷ rest)
      ≡ (4, some x)
read-four x rest h =
    read-lead _ (x / 64 / 64 / 64)
      (bit_or 0x80 (x / 64 / 64 % 64) ∷ bit_or 0x80 (x / 64 % 64) ∷ bit_or 0x80 (x % 64) ∷ []) rest
      (says-eq _ _ _ (passes-lt _ 8 (x / 64 / 64 / 64) (omega arith) lead_four_table))
    ∙ ap (λ k. (4, some k))
        (join_byte (x / 64 / 64 / 64) (x / 64 / 64) _
          ∙ join_byte _ (x / 64) _
          ∙ join_byte _ x []
          ∙ join-nil _ x (omega arith))

-- Whatever bytes follow, reading where a codepoint up to 0x1FFFFF was written gives that codepoint and
-- consumes exactly the bytes that were written, provided that there was room to write it.
pub read-write :
    (codepoint room : ℕ) (rest : List ℕ)
    → codepoint ≤ 0x1FFFFF
    → write codepoint room ≢ []
    → read (write codepoint room ++ rest) ≡ (length (write codepoint room), some codepoint)
unfolding write
read-write x room rest h written =
    ground (arith, read-one x rest, read-two x rest, read-three x rest, read-four x rest)

-- A codepoint up to 0x1FFFFF is written whenever the room is at least four bytes.
pub write-ne-nil : (codepoint room : ℕ) → 4 ≤ room → write codepoint room ≢ []
unfolding write
write-ne-nil x room h = ground arith
