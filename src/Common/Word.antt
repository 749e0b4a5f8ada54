-- ===== src/Common/Word.antt =====
-- Unsigned 64-bit words as native numbers: the functions of Go's math/bits that the code calls, and
-- the wrap-around of `+`, `-` and `<<` written out.
use Prim.Native.Nat.{ℕ, zero, suc, ◌+◌, ◌-◌, ◌*◌, ◌/◌, ◌%◌, ◌^◌, ◌<◌}
use mathlib.Core.Option.{Option, none, some}
use mathlib.Core.Bool.{◌||◌}
use sunyata.Common.Tests.{ltb, leb, ◌==◌, if◌then◌else◌}

abbrev pub two64 : ℕ
two64 = 2 ^ 64

abbrev pub IsU64 : ℕ → Type 0
IsU64 x = x < 2 ^ 64

-- `x + y` and `x - y` on uint64.
abbrev pub add_u64 : ℕ → ℕ → ℕ
add_u64 x y = (x + y) % 2 ^ 64

abbrev pub sub_u64 : ℕ → ℕ → ℕ
sub_u64 x y = (x + 2 ^ 64 - y) % 2 ^ 64

-- `bits.Add64(x, y, carry)`: the sum and the carry out.
abbrev pub add64 : ℕ → ℕ → ℕ → ℕ × ℕ
add64 x y carry = ((x + y + carry) % 2 ^ 64, (x + y + carry) / 2 ^ 64)

-- `bits.Sub64(x, y, borrow)`: the difference and the borrow out.
abbrev pub sub64 : ℕ → ℕ → ℕ → ℕ × ℕ
sub64 x y borrow =
    ((x + 2 ^ 64 + 2 ^ 64 - (y + borrow)) % 2 ^ 64, if ltb x (y + borrow) then 1 else 0)

-- `bits.Mul64(x, y)`: the high and the low word of the product.
abbrev pub mul64 : ℕ → ℕ → ℕ × ℕ
mul64 x y = (x * y / 2 ^ 64, x * y % 2 ^ 64)

-- `bits.Div64(hi, lo, y)`: quotient and remainder; `none` is its panic on `y == 0` or `y <= hi`.
abbrev pub div64 : ℕ → ℕ → ℕ → Option (ℕ × ℕ)
div64 hi lo y =
    if y == 0 || leb y hi then none else some ((hi * 2 ^ 64 + lo) / y, (hi * 2 ^ 64 + lo) % y)

-- `bits.Len64(x)`: the number of bits of `x`, counted by halving; 64 rounds are enough.
unfoldable pub bit_length : ℕ → ℕ → ℕ
bit_length zero x = 0
bit_length (suc fuel) x = let rest = bit_length fuel (x / 2) in if x == 0 then 0 else suc rest

unfoldable pub len64 : ℕ → ℕ
unfolding bit_length
len64 x = bit_length 64 x

-- `bits.LeadingZeros64(x)`
unfoldable pub leading_zeros64 : ℕ → ℕ
unfolding len64
leading_zeros64 x = 64 - len64 x

-- `x ^ y`, bit by bit; 64 rounds are enough.
unfoldable pub xor_bits : ℕ → ℕ → ℕ → ℕ
xor_bits zero x y = 0
xor_bits (suc fuel) x y = (x + y) % 2 + 2 * xor_bits fuel (x / 2) (y / 2)

unfoldable pub xor_u64 : ℕ → ℕ → ℕ
unfolding xor_bits
xor_u64 x y = xor_bits 64 x y
