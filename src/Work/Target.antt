-- ===== src/Work/Target.antt =====
-- The miner's target and the validator's work: a block ID meets HashRequiringWork(w) exactly when
-- WorkRequiredForHash gives it at least the work w.
use native.Mathlib.Nat.{
  div-add-mod', mod-lt, mod-eq_of_lt, mul-le-mul_right, mul-le-mul_left, pow-suc, one-le-pow,
  add-mul-mod_self_right, le-div_iff_mul-le,
}
use sunyata.Common.{
  ℕ, zero, suc, ◌+◌, ◌-◌, ◌*◌, ◌/◌, ◌%◌, ◌^◌, ◌≤◌, ◌<◌, ◌≡◌, ◌↔◌, refl, inl, inr, arith, none, some,
  Bool-cases, ltb, ◌==◌, true, if◌then◌else◌, List, [], ◌∷◌, length, All, ap, sym, ◌∙◌, ==_iff,
}
use sunyata.Types.{BlockId}
use sunyata.Work.{
  Work, IsWork, hashes, big_endian, from_number, fill_bytes, work_required_for_hash,
  hash_requiring_work, bytes_le, meets_target,
}

abbrev pub IsByte : ℕ → Type 0
IsByte b = b < 256

hashes-from_number : (x : ℕ) → x < 2 ^ 256 → hashes (from_number x) ≡ x
unfolding from_number
hashes-from_number x h = omega arith

length-fill_bytes : (n x : ℕ) → length (fill_bytes n x) ≡ n
unfolding fill_bytes
length-fill_bytes zero x = refl
length-fill_bytes (suc n) x = omega (arith, length-fill_bytes n x)

IsByte-fill_bytes : (n x : ℕ) → All IsByte (fill_bytes n x)
unfolding fill_bytes
IsByte-fill_bytes zero x = tt
IsByte-fill_bytes (suc n) x = (omega arith, IsByte-fill_bytes n x)

two_digits : (x p : ℕ) → 1 ≤ p → x / p % 256 * p + x % p ≡ x % (p * 256)
two_digits x p pos = sym (
    ap (λ (y : ℕ). y % (p * 256)) parts
    ∙ (add-mul-mod_self_right _ (x / p / 256) (p * 256) ∙ mod-eq_of_lt small))
  where
    digit : x / p * p ≡ x / p % 256 * p + x / p / 256 * (p * 256)
    digit =
        let split : x / p ≡ x / p / 256 * 256 + x / p % 256 = omega arith in
        omega (arith, ap (λ (y : ℕ). y * p) split)

    parts : x ≡ x / p % 256 * p + x % p + x / p / 256 * (p * 256)
    parts = omega (arith, digit, div-add-mod' x p)

    small : x / p % 256 * p + x % p < p * 256
    small =
        omega (arith, mod-lt x pos, mul-le-mul_right {m = x / p % 256} {n = 255} p (omega arith))

big_endian-fill_bytes : (n x : ℕ) → big_endian (fill_bytes n x) ≡ x % 256 ^ n
unfolding fill_bytes big_endian
big_endian-fill_bytes zero x = omega arith
big_endian-fill_bytes (suc n) x =
    rw (length-fill_bytes n x, big_endian-fill_bytes n x, pow-suc)
      (two_digits x (256 ^ n) (one-le-pow n 256 (omega arith)))

big_endian-lt : (xs : List ℕ) → All IsByte xs → big_endian xs < 256 ^ length xs
unfolding big_endian
big_endian-lt [] h = omega arith
big_endian-lt (x ∷ xs) h = omega (
  arith,
  pow-suc 256 (length xs),
  big_endian-lt xs h.1,
  mul-le-mul_right {m = x} {n = 255} (256 ^ length xs) (omega arith),
)

bytes_le_step :
    (x y : ℕ) (xs ys : List ℕ)
    → 256 ^ length ys ≡ 256 ^ length xs
    → big_endian xs < 256 ^ length xs
    → big_endian ys < 256 ^ length ys
    → (bytes_le xs ys ≡ true) ↔ (big_endian xs ≤ big_endian ys)
    → (bytes_le (x ∷ xs) (y ∷ ys) ≡ true) ↔ (big_endian (x ∷ xs) ≤ big_endian (y ∷ ys))
unfolding bytes_le big_endian
bytes_le_step x y xs ys same low high rest = rw same (elim (Bool-cases (ltb x y)) [
  | inl below ↦
      let order = mul-le-mul_right {m = x + 1} {n = y} (256 ^ length xs) (ground arith) in
      (λ h. omega (arith, low, order), λ h. rw below refl)
  | inr ge ↦ elim (Bool-cases (x == y)) [
    | inl eq ↦
        let e = (==_iff x y).0 eq in
        rw (ge, eq, e) (λ h. omega (arith, rest.0 h), λ h. rest.1 (omega arith))
    | inr ne ↦
        let order = mul-le-mul_right {m = y + 1} {n = x} (256 ^ length xs) (ground arith) in
        rw (ge, ne) (λ h. cc, λ h. absurd (omega (arith, high, same, order)))
  ]
])

-- On byte strings of one length, `bytes.Compare` compares the numbers.
bytes_le_iff :
    (xs ys : List ℕ)
    → length xs ≡ length ys
    → All IsByte xs
    → All IsByte ys
    → (bytes_le xs ys ≡ true) ↔ (big_endian xs ≤ big_endian ys)
unfolding bytes_le big_endian
bytes_le_iff [] [] e hx hy = (λ _. omega arith, λ _. refl)
bytes_le_iff [] (y ∷ ys) e hx hy = absurd (omega arith)
bytes_le_iff (x ∷ xs) [] e hx hy = absurd (omega arith)
bytes_le_iff (x ∷ xs) (y ∷ ys) e hx hy =
    bytes_le_step x y xs ys same (big_endian-lt xs hx.1) (big_endian-lt ys hy.1)
      (bytes_le_iff xs ys (omega arith) hx.1 hy.1)
  where
    same : 256 ^ length ys ≡ 256 ^ length xs
    same = let e' : length ys ≡ length xs = omega arith in ap (λ (n : ℕ). 256 ^ n) e'

-- The number that both HashRequiringWork and WorkRequiredForHash compute, with the cap at 1.
share : ℕ → ℕ
share x = if x == 1 then 2 ^ 256 - 1 else 2 ^ 256 / x

share_swap : (i w : ℕ) → 0 < i → 0 < w → i < 2 ^ 256 → w < 2 ^ 256 → i ≤ share w → w ≤ share i
unfolding share
share_swap i w pi pw hi hw h = elim (Bool-cases (w == 1)) [
  | inl one_work ↦ elim (Bool-cases (i == 1)) [
    | inl one_id ↦ rw one_id (ground arith)
    | inr other ↦
        rw other (omega (arith, (le-div_iff_mul-le {x = w} {y = 2 ^ 256} pi).1 (ground arith)))
  ]
  | inr more ↦ elim (Bool-cases (i == 1)) [
    | inl one_id ↦ rw one_id (omega arith)
    | inr other ↦
        let product : i * w ≤ 2 ^ 256 =
          (le-div_iff_mul-le {x = i} {y = 2 ^ 256} pw).0 (rw more at h) in
        rw other ((le-div_iff_mul-le {x = w} {y = 2 ^ 256} pi).1 (omega arith))
  ]
]

share-lt : (x : ℕ) → 0 < x → share x < 2 ^ 256
unfolding share
share-lt x pos = elim (Bool-cases (x == 1)) [
  | inl one ↦ rw one (omega arith)
  | inr more ↦ rw more (
      omega (
        arith,
        div-add-mod' (2 ^ 256) x,
        mul-le-mul_left {m = 2} {n = x} (2 ^ 256 / x) (ground arith),
      ))
]

-- The numbers behind the two results.
work_required_lem :
    (id : BlockId)
    → 0 < big_endian id
    → (r : Work) × (work_required_for_hash id ≡ some r) × (hashes r ≡ share (big_endian id))
unfolding work_required_for_hash share
work_required_lem id pos =
    let value = share (big_endian id) in
    (from_number value, ground arith, hashes-from_number value (share-lt (big_endian id) pos))

pick_lem :
    (x : ℕ)
    → 0 < x
    → (if x == 0
        then none
        else if x == 1
        then some (fill_bytes 32 (2 ^ 256 - 1))
        else some (fill_bytes 32 (2 ^ 256 / x)))
      ≡ some (fill_bytes 32 (share x))
unfolding share
pick_lem x pos = ground arith

hash_requiring_lem :
    (w : Work)
    → 0 < hashes w
    → (t : BlockId) × (hash_requiring_work w ≡ some t)
      × (big_endian t ≡ share (hashes w))
      × (length t ≡ 32)
      × All IsByte t
unfolding hash_requiring_work share
hash_requiring_lem w pos =
    let value = share (hashes w) in
    (
      fill_bytes 32 value,
      pick_lem (hashes w) pos,
      big_endian-fill_bytes 32 value ∙ mod-eq_of_lt (share-lt (hashes w) pos),
      length-fill_bytes 32 value,
      IsByte-fill_bytes 32 value,
    )

-- A nonzero block ID meets the target of a nonzero amount of work exactly when the work that it
-- took, by the validator's estimate, is at least that amount. Both functions return on such inputs.
pub meets_target_iff :
    (id : BlockId) (w : Work)
    → length id ≡ 32
    → All IsByte id
    → 0 < big_endian id
    → 0 < hashes w
    → IsWork w
    → (t : BlockId) × (r : Work) × (hash_requiring_work w ≡ some t)
      × (work_required_for_hash id ≡ some r)
      × ((meets_target id t ≡ true) ↔ (hashes w ≤ hashes r))
unfolding meets_target
meets_target_iff id w len bytes pos pos' fits =
    let (r, er, vr) = work_required_lem id pos in
    let (t, et, vt, lt, bt) = hash_requiring_lem w pos' in
    let order = bytes_le_iff id t (omega arith) bytes bt in
    let small : big_endian id < 2 ^ 256 =
      omega (arith, big_endian-lt id bytes, ap (λ (n : ℕ). 256 ^ n) len) in
    (
      t,
      r,
      et,
      er,
      (
        λ h. rw vr (
            share_swap (big_endian id) (hashes w) pos pos' small (omega arith)
              (rw (← vt) (order.0 h))),
        λ h. order.1 (
            rw vt
              (share_swap (hashes w) (big_endian id) pos' pos (omega arith) small (rw (← vr) h))),
      ),
    )
