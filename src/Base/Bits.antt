-- ===== src/Base/Bits.antt =====
-- Facts on `bit_or` at variables, and a check of every value below a bound, for the byte code.
use Prim.Native.Nat.{max, bit_or, digits, bit_or-bitwise}
use Prim.Native.Nat.{ℕ, zero, suc, ◌+◌, ◌*◌, ◌/◌, ◌%◌, ◌≤◌, ◌<◌}
use mathlib.Core.Path.{◌≡◌, refl, sym, ap, ◌∙◌}
use mathlib.Core.Bool.{Bool, true, ◌&&◌}
use native.Mathlib.Omega.{arith}

-- A test that passes at every number below the bound, by evaluation.
unfoldable pub passes : (ℕ → Bool) → ℕ → Bool
passes test zero = true
passes test (suc bound) = passes test bound && test bound

pub passes-lt :
    (test : ℕ → Bool) (bound k : ℕ) → k < bound → passes test bound ≡ true → test k ≡ true
unfolding passes
passes-lt test zero k below table = absurd (omega arith)
passes-lt test (suc bound) k below table = ground (arith, passes-lt test bound k)

-- What `bit_or` stands for, with the number of digits that are looked at.
abbrev joined : ℕ → ℕ → ℕ → ℕ
joined fuel = digits (λ y. y) max fuel

joined-zero : (fuel y : ℕ) → joined fuel 0 y ≡ y
joined-zero zero y = refl
joined-zero (suc fuel) y = refl

-- As many digits as the number itself are enough.
joined_stable : (fuel more x y : ℕ) → x ≤ fuel → x ≤ more → joined fuel x y ≡ joined more x y
joined_stable fuel more zero y p q = joined-zero fuel y ∙ sym (joined-zero more y)
joined_stable zero more (suc x) y p q = absurd (omega arith)
joined_stable (suc fuel) zero (suc x) y p q = absurd (omega arith)
joined_stable (suc fuel) (suc more) (suc x) y p q =
    ap (λ rest. rest * 2 + max (suc x % 2) (y % 2))
      (joined_stable fuel more (suc x / 2) (y / 2) (omega arith) (omega arith))

bit_or-joined : (fuel x y : ℕ) → x ≤ fuel → bit_or x y ≡ joined fuel x y
bit_or-joined fuel x y h = bit_or-bitwise x y ∙ joined_stable x fuel x y (omega arith) h

-- `or` digit by digit.
pub bit_or_halves : (x y : ℕ) → bit_or x y ≡ bit_or (x / 2) (y / 2) * 2 + max (x % 2) (y % 2)
bit_or_halves zero y =
    omega (arith, bit_or-joined 0 0 y (omega arith), bit_or-joined 0 0 (y / 2) (omega arith))
bit_or_halves (suc x) y =
    bit_or-joined (suc x) (suc x) y (omega arith)
    ∙ ap (λ rest. rest * 2 + max (suc x % 2) (y % 2))
        (sym (bit_or-joined x (suc x / 2) (y / 2) (omega arith)))

joined-zero_right : (fuel x : ℕ) → x ≤ fuel → joined fuel x 0 ≡ x
joined-zero_right fuel zero h = joined-zero fuel 0
joined-zero_right zero (suc x) h = absurd (omega arith)
joined-zero_right (suc fuel) (suc x) h =
    omega (arith, joined-zero_right fuel (suc x / 2) (omega arith))

pub zero_bit_or : (y : ℕ) → bit_or 0 y ≡ y
zero_bit_or y = bit_or-joined 0 0 y (omega arith) ∙ joined-zero 0 y

bit_or-zero : (x : ℕ) → bit_or x 0 ≡ x
bit_or-zero x = bit_or-joined x x 0 (omega arith) ∙ joined-zero_right x x (omega arith)

-- One binary digit of a shifted word joins the word as a sum.
pub bit_or_double : (a b : ℕ) → bit_or (a * 2) b ≡ bit_or a (b / 2) * 2 + b % 2
bit_or_double a b =
    let half : a * 2 / 2 ≡ a = omega arith in
    let step : bit_or (a * 2) b ≡ bit_or a (b / 2) * 2 + max (a * 2 % 2) (b % 2) =
      rw half at (bit_or_halves (a * 2) b) in
    omega arith

abbrev doubled : ℕ → ℕ → ℕ
doubled zero q = q
doubled (suc k) q = doubled k q * 2

bit_or-doubled : (k q r : ℕ) → r < doubled k 1 → bit_or (doubled k q) r ≡ doubled k q + r
bit_or-doubled zero q r h =
    let none_left : r ≡ 0 = omega arith in rw none_left (omega (arith, bit_or-zero q))
bit_or-doubled (suc k) q r h =
    omega (arith, bit_or_double (doubled k q) r, bit_or-doubled k q (r / 2) (omega arith))

-- `(q << 6) | r` for six bits `r`.
pub bit_or_six : (q r : ℕ) → r < 64 → bit_or (q * 64) r ≡ q * 64 + r
bit_or_six q r h =
    let shift : doubled 6 q ≡ q * 64 = omega arith in
    rw shift at (bit_or-doubled 6 q r (omega arith))

-- The same for four bits and for two.
pub bit_or_four : (q r : ℕ) → r < 16 → bit_or (q * 16) r ≡ q * 16 + r
bit_or_four q r h =
    let shift : doubled 4 q ≡ q * 16 = omega arith in
    rw shift at (bit_or-doubled 4 q r (omega arith))

pub bit_or_two : (q r : ℕ) → r < 4 → bit_or (q * 4) r ≡ q * 4 + r
bit_or_two q r h =
    let shift : doubled 2 q ≡ q * 4 = omega arith in
    rw shift at (bit_or-doubled 2 q r (omega arith))
