-- ===== src/Common/Powers.antt =====
-- Powers of two, and the number of bits of a word.
use native.Mathlib.Nat.{pow-suc, one-le-pow, zero-add, pow-le-pow_right, mul-le-mul_right}
use Prim.Native.Nat.{ℕ, zero, suc, ◌+◌, ◌-◌, ◌*◌, ◌/◌, ◌^◌, ◌<◌, ◌≤◌}
use mathlib.Core.Path.{◌≡◌, refl, sym, ap, ◌∙◌}
use native.Mathlib.Omega.{arith}
use sunyata.Common.Word.{len64, bit_length, leading_zeros64}

pub two-pow-suc : (k : ℕ) → 2 ^ suc k ≡ 2 ^ k + 2 ^ k
two-pow-suc k = omega (arith, pow-suc 2 k)

pub two-pow-pos : (k : ℕ) → 1 ≤ 2 ^ k
two-pow-pos k = one-le-pow k 2 (omega arith)

pub two-pow-add : (j k : ℕ) → 2 ^ (j + k) ≡ 2 ^ j * 2 ^ k
two-pow-add zero k = rw zero-add (omega arith)
two-pow-add (suc j) k =
    let shift : suc j + k ≡ suc (j + k) = omega arith in
    rw shift (
      omega
        (arith, two-pow-suc (j + k), two-pow-add j k, ap (λ (t : ℕ). t * 2 ^ k) (two-pow-suc j)))

pub two-pow-le : (j k : ℕ) → j ≤ k → 2 ^ j ≤ 2 ^ k
two-pow-le j k h = pow-le-pow_right (omega arith) h

-- A word with `n` bits lies between the powers of two on both sides.
bit_length-lt : (fuel x : ℕ) → x < 2 ^ fuel → x < 2 ^ bit_length fuel x
unfolding bit_length
bit_length-lt zero x h = h
bit_length-lt (suc fuel) x h =
    ground
      (arith, two-pow-suc fuel, two-pow-suc (bit_length fuel (x / 2)), bit_length-lt fuel (x / 2))

bit_length-zero : (fuel : ℕ) → bit_length fuel 0 ≡ 0
unfolding bit_length
bit_length-zero zero = refl
bit_length-zero (suc fuel) = refl

bit_length-le : (fuel x : ℕ) → 0 < x → x < 2 ^ fuel → 2 ^ bit_length fuel x ≤ 2 * x
unfolding bit_length
bit_length-le zero x pos h = absurd (omega arith)
bit_length-le (suc fuel) x pos h = ground (
  arith,
  two-pow-suc fuel,
  two-pow-suc (bit_length fuel (x / 2)),
  bit_length-le fuel (x / 2),
  bit_length-zero fuel,
)

bit_length-le_fuel : (fuel x : ℕ) → bit_length fuel x ≤ fuel
unfolding bit_length
bit_length-le_fuel zero x = omega arith
bit_length-le_fuel (suc fuel) x = ground (arith, bit_length-le_fuel fuel (x / 2))

pub len64_bounds :
    (x : ℕ) → x < 2 ^ 64 → (x < 2 ^ len64 x) × (0 < x → 2 ^ len64 x ≤ 2 * x) × (len64 x ≤ 64)
unfolding len64
len64_bounds x h = (bit_length-lt 64 x h, λ pos. bit_length-le 64 x pos h, bit_length-le_fuel 64 x)

exponent-pos : (k x : ℕ) → 0 < x → x < 2 ^ k → 1 ≤ k
exponent-pos zero x pos h = absurd (omega arith)
exponent-pos (suc k) x pos h = omega arith

shift_bounds :
    (x a b : ℕ) → x < a → a ≤ 2 * x → 1 ≤ b → a * b ≡ 2 ^ 64 → (2 ^ 63 ≤ x * b) × (x * b < 2 ^ 64)
shift_bounds x a b below above pos e = (omega (arith, mul-le-mul_right b above), grind arith)

-- A nonzero word shifted by its leading zeros has its top bit set and still fits.
pub leading_zeros64_lem :
    (x : ℕ)
    → x < 2 ^ 64
    → 0 < x
    → (2 ^ 63 ≤ x * 2 ^ leading_zeros64 x)
      × (x * 2 ^ leading_zeros64 x < 2 ^ 64)
      × (leading_zeros64 x ≤ 63)
unfolding leading_zeros64
leading_zeros64_lem x h pos = (scaled.0, scaled.1, omega (arith, low))
  where
    bits : (x < 2 ^ len64 x) × (0 < x → 2 ^ len64 x ≤ 2 * x) × (len64 x ≤ 64)
    bits = len64_bounds x h

    low : 1 ≤ len64 x
    low = exponent-pos (len64 x) x pos bits.0

    whole : 2 ^ len64 x * 2 ^ (64 - len64 x) ≡ 2 ^ 64
    whole =
        let total : 64 ≡ len64 x + (64 - len64 x) = omega (arith, bits.2) in
        sym (ap (λ (t : ℕ). 2 ^ t) total ∙ two-pow-add (len64 x) (64 - len64 x))

    scaled : (2 ^ 63 ≤ x * 2 ^ (64 - len64 x)) × (x * 2 ^ (64 - len64 x) < 2 ^ 64)
    scaled = shift_bounds x _ _ bits.0 (bits.1 pos) (two-pow-pos (64 - len64 x)) whole
