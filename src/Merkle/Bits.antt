-- ===== src/Merkle/Bits.antt =====
-- Positions in a forest of perfect trees: halving, single bits and siblings, for the tests and
-- shifts of accumulator.go.
use native.Mathlib.Nat.{div-div-eq-div-mul, pow-suc}
use sunyata.Common.{
  ℕ, suc, ◌+◌, ◌-◌, ◌*◌, ◌/◌, ◌%◌, ◌^◌, ◌≤◌, ◌≡◌, arith, Bool, ◌==◌, if◌then◌else◌,
}
use sunyata.Common.Word.{len64, xor_u64}
use sunyata.Common.Powers.{two-pow-add}
pub mod Merging

-- `x & (1<<i) != 0`
abbrev pub bit : ℕ → ℕ → Bool
bit x i = x / 2 ^ i % 2 == 1

-- clearBits: `x &^ (1<<n - 1)` drops the `n` low bits.
unfoldable pub clear_bits : ℕ → ℕ → ℕ
clear_bits x n = x / 2 ^ n * 2 ^ n

-- mergeHeight: the height at which the proof paths of `x` and `y` merge.
unfoldable pub merge_height : ℕ → ℕ → ℕ
unfolding len64 xor_u64
merge_height x y = len64 (xor_u64 x y)

pub div-two-pow-suc : (x k : ℕ) → x / 2 ^ suc k ≡ x / 2 ^ k / 2
div-two-pow-suc x k = rw (pow-suc, div-div-eq-div-mul)

pub div-two-pow-add : (x j k : ℕ) → x / 2 ^ (j + k) ≡ x / 2 ^ j / 2 ^ k
div-two-pow-add x j k = rw (two-pow-add, div-div-eq-div-mul)

-- Two indices in one unit stay together in larger units.
pub div-same_above : (i n h t : ℕ) → h ≤ t → i / 2 ^ h ≡ n / 2 ^ h → i / 2 ^ t ≡ n / 2 ^ t
div-same_above i n h t le e =
    let height : t ≡ h + (t - h) = omega arith in
    rw (height, div-two-pow-add i h (t - h), div-two-pow-add n h (t - h), e)

-- The other child of the same parent.
abbrev pub sibling : ℕ → ℕ
sibling k = if k % 2 == 0 then k + 1 else k - 1
