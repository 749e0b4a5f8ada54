-- ===== src/Merkle/Bits/Merging.antt =====
-- mergeHeight is the least height at which two indices lie in the same unit.
use sunyata.Common.{
  sym, ltb, ltb→lt, ltb-false→le, ℕ, zero, suc, ◌+◌, ◌/◌, ◌^◌, ◌≤◌, ◌<◌, ◌≡◌, ◌≢◌, ap, ◌∙◌, inl,
  inr, arith, ◌==◌, ==_iff, Bool-cases,
}
use sunyata.Common.Word.{bit_length, len64, xor_bits, xor_u64}
use sunyata.Common.Powers.{two-pow-suc}
use sunyata.Merkle.Bits.{merge_height, div-two-pow-add, div-same_above}

xor_bits-zero : (f x y : ℕ) → x < 2 ^ f → y < 2 ^ f → xor_bits f x y ≡ 0 → x ≡ y
unfolding xor_bits
xor_bits-zero zero x y hx hy e = omega (arith, hx, hy)
xor_bits-zero (suc f) x y hx hy e =
    let p = two-pow-suc f in
    let rest : x / 2 ≡ y / 2 =
      xor_bits-zero f (x / 2) (y / 2) (omega (arith, p, hx)) (omega (arith, p, hy))
        (omega (arith, e)) in
    omega (arith, e, rest)

xor_bits_same : (f x : ℕ) → xor_bits f x x ≡ 0
unfolding xor_bits
xor_bits_same zero x = omega arith
xor_bits_same (suc f) x = omega (arith, xor_bits_same f (x / 2))

xor_bits-half : (f x y : ℕ) → xor_bits (suc f) x y / 2 ≡ xor_bits f (x / 2) (y / 2)
unfolding xor_bits
xor_bits-half f x y = omega arith

bit_length-step : (f v : ℕ) → v ≢ 0 → bit_length (suc f) v ≡ suc (bit_length f (v / 2))
unfolding bit_length
bit_length-step f v ne = ground arith

bit_length-zero : (f : ℕ) → bit_length f 0 ≡ 0
unfolding bit_length
bit_length-zero zero = omega arith
bit_length-zero (suc f) = omega arith

half-first : (x k : ℕ) → x / 2 ^ suc k ≡ x / 2 / 2 ^ k
half-first x k =
    let next : suc k ≡ 1 + k = omega arith in rw (next, div-two-pow-add x 1 k) (omega arith)

-- The highest bit in which two numbers differ.
merging :
    (f x y : ℕ)
    → x < 2 ^ f
    → y < 2 ^ f
    → x ≢ y
    → (m : ℕ) × (bit_length f (xor_bits f x y) ≡ suc m)
      × (x / 2 ^ suc m ≡ y / 2 ^ suc m)
      × (x / 2 ^ m ≢ y / 2 ^ m)
merging zero x y hx hy ne = absurd (ne (omega (arith, hx, hy)))
merging (suc f) x y hx hy ne =
    let p = two-pow-suc f in
    let step =
      bit_length-step f (xor_bits (suc f) x y) (λ e. ne (xor_bits-zero (suc f) x y hx hy e))
      ∙ ap (λ v. suc (bit_length f v)) (xor_bits-half f x y) in
    elim (Bool-cases (x / 2 == y / 2)) [
      | inl same ↦
          let e : x / 2 ≡ y / 2 = (==_iff (x / 2) (y / 2)).0 same in
          let none_left : bit_length f (xor_bits f (x / 2) (y / 2)) ≡ 0 =
            rw (e, xor_bits_same f (y / 2)) (bit_length-zero f) in
          (0, step ∙ ap suc none_left, omega (arith, e), λ q. ne (omega (arith, q)))
      | inr differ ↦
          let (m, len, above, below) =
            merging f (x / 2) (y / 2) (omega (arith, p, hx)) (omega (arith, p, hy))
              (ground arith) in
          (
            suc m,
            step ∙ ap suc len,
            half-first x (suc m) ∙ above ∙ sym (half-first y (suc m)),
            λ q. below (sym (half-first x m) ∙ q ∙ half-first y m),
          )
    ]

pub merge_height-lem :
    (x y : ℕ)
    → x < 2 ^ 64
    → y < 2 ^ 64
    → x ≢ y
    → (m : ℕ) × (merge_height x y ≡ suc m)
      × (x / 2 ^ suc m ≡ y / 2 ^ suc m)
      × (x / 2 ^ m ≢ y / 2 ^ m)
unfolding merge_height len64 xor_u64
merge_height-lem x y hx hy ne = merging 64 x y hx hy ne

pub merge_height-same : (x : ℕ) → merge_height x x ≡ 0
unfolding merge_height len64 xor_u64
merge_height-same x = rw (xor_bits_same 64 x) (bit_length-zero 64)

-- Two indices in one unit merge at its height or below.
pub merge_height-le :
    (x y h : ℕ) → x < 2 ^ 64 → y < 2 ^ 64 → x / 2 ^ h ≡ y / 2 ^ h → merge_height x y ≤ h
merge_height-le x y h hx hy same = elim (Bool-cases (x == y)) [
  | inl e ↦ rw ((==_iff x y).0 e) (omega (arith, merge_height-same y))
  | inr ne ↦
      let (m, at, above, below) = merge_height-lem x y hx hy (ground arith) in
      elim (Bool-cases (ltb m h)) [
        | inl lt ↦ omega (arith, at, ltb→lt m h lt)
        | inr ge ↦ absurd (below (div-same_above x y h m (ltb-false→le m h ge) same))
      ]
]
