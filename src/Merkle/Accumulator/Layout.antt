-- ===== src/Merkle/Accumulator/Layout.antt =====
-- How leaf indices lie in the trees of an accumulator, and how that changes when the heights are
-- walked.
use native.Mathlib.Nat.{pow-suc, mul-div_cancel, div-add-mod'}
use sunyata.Common.{
  ℕ, suc, ◌+◌, ◌-◌, ◌*◌, ◌/◌, ◌%◌, ◌^◌, ◌≤◌, ◌<◌, ◌≡◌, ap, ◌∙◌, inl, inr, arith, ltb, ltb→lt,
  ltb-false→le, Bool-cases,
}
use sunyata.Common.Powers.{two-pow-add, two-pow-suc, two-pow-pos}
use sunyata.Common.Word.{add_u64, sub_u64}
use sunyata.Merkle.Bits.{clear_bits, div-two-pow-suc, div-two-pow-add, div-same_above}

-- With `n` leaves there is a tree of height `t`, and leaf `i` lies in it.
pub record Belongs (n t i : ℕ) : Type 0 where
  pub present : n / 2 ^ t % 2 ≡ 1
  pub inside : i / 2 ^ t + 1 ≡ n / 2 ^ t

-- All heights below `h` have a tree.
abbrev pub Full : ℕ → ℕ → Type 0
Full n h = n + 1 ≡ (n / 2 ^ h + 1) * 2 ^ h

pub Full-suc : (n h : ℕ) → Full n h → n / 2 ^ h % 2 ≡ 1 → Full n (suc h)
Full-suc n h full odd =
    let halves : n / 2 ^ h + 1 ≡ (n / 2 ^ h / 2 + 1) * 2 = omega arith in
    rw (div-two-pow-suc, pow-suc) (omega (arith, full, ap (λ (t : ℕ). t * 2 ^ h) halves))

mul-div_two-pow : (x k : ℕ) → x * 2 ^ k / 2 ^ k ≡ x
mul-div_two-pow x k = mul-div_cancel x (two-pow-pos k)

-- The successor of `n` in units of `2 ^ h`.
pub div-suc_Full : (n h : ℕ) → Full n h → (n + 1) / 2 ^ h ≡ n / 2 ^ h + 1
div-suc_Full n h full = rw full (mul-div_two-pow (n / 2 ^ h + 1) h)

-- Below the first height with no tree, the next number of leaves has no tree.
pub low_heights_empty : (n h t : ℕ) → Full n h → t < h → (n + 1) / 2 ^ t % 2 ≡ 0
low_heights_empty n h t full below = rw (scaled, mul-div_two-pow) (omega arith)
  where
    d : ℕ
    d = h - t - 1

    split : 2 ^ h ≡ (2 ^ d + 2 ^ d) * 2 ^ t
    split =
        let height : h ≡ suc d + t = omega arith in
        ap (λ (x : ℕ). 2 ^ x) height
        ∙ (two-pow-add (suc d) t ∙ ap (λ (x : ℕ). x * 2 ^ t) (two-pow-suc d))

    scaled : n + 1 ≡ (n / 2 ^ h + 1) * 2 ^ d * 2 * 2 ^ t
    scaled = omega (arith, full, ap (λ (x : ℕ). (n / 2 ^ h + 1) * x) split)

-- Above it, the trees stay.
pub high_heights_same :
    (n h t : ℕ) → Full n h → n / 2 ^ h % 2 ≡ 0 → h < t → (n + 1) / 2 ^ t ≡ n / 2 ^ t
high_heights_same n h t full even above =
    let height : t ≡ suc h + (t - suc h) = omega arith in
    rw height (
      rw
        (
          div-two-pow-add (n + 1) (suc h) (t - suc h),
          div-two-pow-add n (suc h) (t - suc h),
          div-two-pow-suc (n + 1) h,
          div-two-pow-suc n h,
          div-suc_Full n h full,
        )
        (ap (λ (x : ℕ). x / 2 ^ (t - suc h)) (omega arith)))

-- Which unit of `p` an index lies in, by comparison with the unit's ends.
pub unit_of : (i k p : ℕ) → k * p ≤ i → i < (k + 1) * p → i / p ≡ k
unit_of i k p low high = grind arith

pub unit_below : (i k p : ℕ) → 0 < p → i < k * p → i / p < k
unit_below i k p pos high = grind arith

pub unit_start_le : (i p : ℕ) → i / p * p ≤ i
unit_start_le i p = omega (arith, div-add-mod' i p)

-- Where the leaf `i` stands when the tree of height `h` is merged with the new one. `p` is `2 ^ h`.
module _ (n h i : ℕ) (full : Full n h) where
  pub under_new : n + 1 ≤ i + 2 ^ h → i ≤ n → i / 2 ^ h ≡ n / 2 ^ h
  under_new low high = unit_of i (n / 2 ^ h) (2 ^ h) (omega (arith, full)) (omega (arith, full))

  module _ (odd : n / 2 ^ h % 2 ≡ 1) where
    one_more : n / 2 ^ h ≡ n / 2 ^ h - 1 + 1
    one_more = omega (arith, odd)

    old_start : n / 2 ^ h * 2 ^ h ≡ (n / 2 ^ h - 1) * 2 ^ h + 2 ^ h
    old_start = omega (arith, ap (λ (x : ℕ). x * 2 ^ h) one_more)

    pub under_old : n + 1 ≤ i + 2 ^ h + 2 ^ h → i + 2 ^ h ≤ n → i / 2 ^ h + 1 ≡ n / 2 ^ h
    under_old low high = omega (
      arith,
      one_more,
      unit_of i (n / 2 ^ h - 1) (2 ^ h) (omega (arith, full, old_start))
          (omega (arith, full, old_start)),
    )

    pub under_neither : i + 2 ^ h + 2 ^ h ≤ n → i / 2 ^ h + 1 < n / 2 ^ h
    under_neither high = omega (
      arith,
      one_more,
      unit_below i (n / 2 ^ h - 1) (2 ^ h) (two-pow-pos h) (omega (arith, full, old_start)),
    )

pub div_mono : (a b p : ℕ) → 0 < p → a ≤ b → a / p ≤ b / p
div_mono a b p pos le = grind arith

-- A leaf of a higher tree lies in an earlier unit.
pub Belongs-earlier : (n h t i : ℕ) → h ≤ t → Belongs n t i → i / 2 ^ h < n / 2 ^ h
Belongs-earlier n h t i le b = elim (Bool-cases (ltb (i / 2 ^ h) (n / 2 ^ h))) [
  | inl lt ↦ ltb→lt _ _ lt
  | inr ge ↦
      let height : t ≡ h + (t - h) = omega arith in
      let up : n / 2 ^ t ≤ i / 2 ^ t =
        rw (height, div-two-pow-add i h (t - h), div-two-pow-add n h (t - h))
          (div_mono _ _ (2 ^ (t - h)) (two-pow-pos (t - h)) (ltb-false→le _ _ ge)) in
      absurd (omega (arith, b.inside))
]

-- Where the tree of leaf `i` starts.
pub clear_bits-start : (n b i : ℕ) → Belongs n b i → clear_bits n (b + 1) ≡ i / 2 ^ b * 2 ^ b
unfolding clear_bits
clear_bits-start n b i h =
    let next : b + 1 ≡ suc b = omega arith in
    let halves : n / 2 ^ b / 2 * 2 ≡ i / 2 ^ b = omega (arith, h.inside, h.present) in
    rw (next, div-two-pow-suc, pow-suc) (omega (arith, ap (λ (x : ℕ). x * 2 ^ b) halves))

pub start_unit : (i b h : ℕ) → b ≤ h → i / 2 ^ b * 2 ^ b / 2 ^ h ≡ i / 2 ^ h
start_unit i b h le = div-same_above (i / 2 ^ b * 2 ^ b) i b h le (mul-div_two-pow (i / 2 ^ b) b)

-- The tests of the growth loop: the first unit of the new tree and of the old one.
module _ (n h : ℕ) (full : Full n h) (small : n + 1 < 2 ^ 64) where
  pub cur-eq : sub_u64 (add_u64 n 1) (2 ^ h) ≡ n / 2 ^ h * 2 ^ h
  cur-eq = omega (arith, full)

  module _ (odd : n / 2 ^ h % 2 ≡ 1) where
    pub prev-eq : sub_u64 (add_u64 n 1) (2 ^ (h + 1) % 2 ^ 64) + 2 ^ h ≡ n / 2 ^ h * 2 ^ h
    prev-eq =
        let next : h + 1 ≡ suc h = omega arith in
        rw (next, two-pow-suc h)
          (omega (arith, full, ap (λ (x : ℕ). x * 2 ^ h) (one_more n h 0 full odd)))
