-- ===== src/Work/Arithmetic.antt =====
-- Work's operations against arithmetic on the numbers of hashes.
use native.Mathlib.Nat.{mul-le-mul}
use sunyata.Currency.Division.{div64_lem}
use sunyata.Common.{
  ℕ, ◌+◌, ◌-◌, ◌*◌, ◌%◌, ◌^◌, ◌≤◌, ◌<◌, ◌≡◌, ◌⊎◌, inl, inr, arith, none, some, Bool-cases, ◌==◌,
}
use sunyata.Currency.Arithmetic.{Sign-cases}
use sunyata.Currency.{less, same, greater}
use sunyata.Work.{Work, IsWork, hashes, add, sub, mul_step, mul_64, div_64, cmp}

-- Add is addition modulo 2^256.
pub work_add_exact :
    (w v : Work) → IsWork w → IsWork v → hashes (add w v) ≡ (hashes w + hashes v) % 2 ^ 256
unfolding add
work_add_exact w v hw hv = omega arith

-- Sub is the difference, when it is not negative.
pub work_sub_exact :
    (w v : Work)
    → IsWork w
    → IsWork v
    → hashes v ≤ hashes w
    → hashes (sub w v) + hashes v ≡ hashes w
unfolding sub
work_sub_exact w v hw hv le = ground arith

pub add-IsWork : (w v : Work) → IsWork (add w v)
unfolding add
add-IsWork w v = omega arith

-- Cmp orders two amounts of work by the number of hashes.
pub work_cmp_exact :
    (w v : Work)
    → IsWork w
    → IsWork v
    → ((cmp w v ≡ less) × (hashes w < hashes v))
      ⊎ ((cmp w v ≡ same) × (hashes w ≡ hashes v))
      ⊎ ((cmp w v ≡ greater) × (hashes v < hashes w))
unfolding cmp
work_cmp_exact w v hw hv = elim (Sign-cases (cmp w v)) [
  | inl e ↦ inl (e, ground arith)
  | inr (inl e) ↦ inr (inl (e, ground arith))
  | inr (inr e) ↦ inr (inr (e, ground arith))
]

mul-bound : (x y : ℕ) → x < 2 ^ 64 → y < 2 ^ 64 → x * y ≤ (2 ^ 64 - 1) * (2 ^ 64 - 1)
mul-bound x y hx hy = mul-le-mul {n₂ = 2 ^ 64 - 1} {m₂ = 2 ^ 64 - 1} (omega arith) (omega arith)

mul_step_exact :
    (wi v c : ℕ)
    → wi < 2 ^ 64
    → v < 2 ^ 64
    → c < 2 ^ 64
    → ((mul_step wi v c).0 + (mul_step wi v c).1 * 2 ^ 64 ≡ wi * v + c)
      × ((mul_step wi v c).0 < 2 ^ 64)
      × ((mul_step wi v c).1 < 2 ^ 64)
unfolding mul_step
mul_step_exact wi v c hw hv hc = let product = mul-bound wi v hw hv in omega (arith, product)

-- Mul64 is multiplication modulo 2^256.
pub work_mul_64_exact :
    (w : Work) (v : ℕ) → IsWork w → v < 2 ^ 64 → hashes (mul_64 w v) ≡ hashes w * v % 2 ^ 256
unfolding mul_64
work_mul_64_exact w v hw hv =
    let e3 = mul_step_exact w.n3 v 0 hw.fits3 hv (omega arith) in
    let e2 = mul_step_exact w.n2 v _ hw.fits2 hv e3.2 in
    let e1 = mul_step_exact w.n1 v _ hw.fits1 hv e2.2 in
    let e0 = mul_step_exact w.n0 v _ hw.fits0 hv e1.2 in omega (arith, e3, e2, e1, e0)

pub mul_64-IsWork : (w : Work) (v : ℕ) → IsWork (mul_64 w v)
unfolding mul_64 mul_step
mul_64-IsWork w v = omega arith

-- Div64 is division by a word, and panics exactly on zero.
pub work_div_64_exact :
    (w : Work) (v : ℕ)
    → IsWork w
    → ((q : Work) × (r : ℕ) × (div_64 w v ≡ some q)
        × (hashes q * v + r ≡ hashes w)
        × (r < v)
        × IsWork q)
      ⊎ ((div_64 w v ≡ none) × (v ≡ 0))
unfolding div_64
work_div_64_exact w v hw = elim (Bool-cases (v == 0)) [
  | inl zero_divisor ↦ inr (ground arith, ground arith)
  | inr nonzero ↦
      let (q0, r0, e0, s0, b0, f0) = div64_lem 0 w.n0 v (ground arith) hw.fits0 in
      let (q1, r1, e1, s1, b1, f1) = div64_lem r0 w.n1 v b0 hw.fits1 in
      let (q2, r2, e2, s2, b2, f2) = div64_lem r1 w.n2 v b1 hw.fits2 in
      let (q3, r3, e3, s3, b3, f3) = div64_lem r2 w.n3 v b2 hw.fits3 in
      inl (
        record { n0 = q0; n1 = q1; n2 = q2; n3 = q3 },
        r3,
        rw (e0, e1, e2, e3),
        omega (arith, s0, s1, s2, s3),
        b3,
        record { fits0 = f0; fits1 = f1; fits2 = f2; fits3 = f3 },
      )
]
