-- ===== src/Consensus/Header/Difficulty.antt =====
-- The difficulty that adjustDifficulty sets.
use native.Mathlib.Nat.{mul-le-mul_left}
use sunyata.Common.{ℕ, ◌+◌, ◌*◌, ◌/◌, ◌^◌, ◌≤◌, ◌<◌, ◌≡◌, inl, inr, arith, some}
use sunyata.Work.{Work, IsWork, hashes}
use sunyata.Work
use sunyata.Work.Arithmetic.{work_mul_64_exact, work_div_64_exact, mul_64-IsWork}
use sunyata.Types.{BlockHeader}
use sunyata.Consensus.State.{State}
use sunyata.Consensus.Header.{clamped_delta, expected_delta, elapsed, adjust_difficulty}

clamped_delta-bounds :
    (actual : ℕ)
    → (expected_delta / 4 ≤ clamped_delta actual) × (clamped_delta actual ≤ expected_delta * 4)
unfolding clamped_delta
clamped_delta-bounds actual = ground arith

pub adjust_difficulty-total :
    (s : State) (h : BlockHeader) → (d : Work) × (adjust_difficulty s h ≡ some d) × IsWork d
unfolding adjust_difficulty
adjust_difficulty-total s h =
    let delta = clamped_delta (elapsed s.last_adjust h.timestamp) in
    let (low, high) = clamped_delta-bounds (elapsed s.last_adjust h.timestamp) in
    elim (work_div_64_exact (Work.mul_64 s.difficulty expected_delta) delta
      (mul_64-IsWork s.difficulty expected_delta)) [
        | inr (e, zero_delta) ↦ absurd (omega (arith, zero_delta, low))
        | inl (q, r, e, exact, rest, word) ↦ (q, e, word)
      ]

quotient-bounds :
    (was now delta rest : ℕ)
    → expected_delta / 4 ≤ delta
    → delta ≤ expected_delta * 4
    → now * delta + rest ≡ was * expected_delta
    → rest < delta
    → (was / 4 ≤ now) × (now ≤ was * 4)
quotient-bounds was now delta rest low high exact small =
    let above : (now + 1) * delta ≤ (now + 1) * (expected_delta * 4) =
      mul-le-mul_left (now + 1) high in
    let below : now * (expected_delta / 4) ≤ now * delta = mul-le-mul_left now low in
    (omega (arith, above), omega (arith, below))

-- adjustDifficulty returns, and its difficulty is at least a quarter (rounded down) and at most four
-- times the one before, which must be small enough that its product with the expected duration fits
-- 256 bits.
pub adjust_difficulty-bounds :
    (s : State) (h : BlockHeader)
    → IsWork s.difficulty
    → hashes s.difficulty * expected_delta < 2 ^ 256
    → (d : Work) × (adjust_difficulty s h ≡ some d)
      × (hashes s.difficulty / 4 ≤ hashes d)
      × (hashes d ≤ hashes s.difficulty * 4)
      × IsWork d
unfolding adjust_difficulty
adjust_difficulty-bounds s h fits small =
    let delta = clamped_delta (elapsed s.last_adjust h.timestamp) in
    let (low, high) = clamped_delta-bounds (elapsed s.last_adjust h.timestamp) in
    let product = work_mul_64_exact s.difficulty expected_delta fits (omega arith) in
    elim (work_div_64_exact (Work.mul_64 s.difficulty expected_delta) delta
      (mul_64-IsWork s.difficulty expected_delta)) [
        | inr (e, zero_delta) ↦ absurd (omega (arith, zero_delta, low))
        | inl (q, r, e, exact, rest, word) ↦
            let bounds =
              quotient-bounds (hashes s.difficulty) (hashes q) delta r low high
                (omega (arith, exact, product, small)) rest in
            (q, e, bounds.0, bounds.1, word)
      ]
