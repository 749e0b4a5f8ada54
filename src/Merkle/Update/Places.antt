-- ===== src/Merkle/Update/Places.antt =====
-- Where the leaves with proofs lie: the tree of each leaf, and the entries of its path.
use sunyata.Common.{
  ℕ, zero, suc, ◌+◌, ◌-◌, ◌*◌, ◌/◌, ◌%◌, ◌^◌, ◌≤◌, ◌<◌, ◌≡◌, ◌≢◌, sym, ap, ◌∙◌, inl, inr, arith,
  some, List, [], ◌∷◌, ◌++◌, length, get_elem?, get_elem?-append_left, get_elem?-append_last,
  Bool-cases, ltb, ltb→lt, ltb-false→le, subst,
}
use sunyata.Common.Powers.{two-pow-pos, two-pow-le}
use sunyata.Types.{Crypto, Hash256}
use sunyata.Merkle.Bits.{sibling, clear_bits, div-same_above, div-two-pow-suc}
use sunyata.Merkle.Forest.{node, path, length-path}
use sunyata.Merkle.Accumulator.Layout.{Belongs, clear_bits-start, div_mono, unit_start_le, unit_of}
use sunyata.Merkle.Accumulator.Tracking.{IsProof}
use sunyata.Merkle.Update.Tree.{below-cases}

unit_end : (i p : ℕ) → 0 < p → i < i / p * p + p
unit_end i p pos = grind arith

pub Belongs-low : (n t i : ℕ) → Belongs n t i → (n / 2 ^ t - 1) * 2 ^ t ≤ i
Belongs-low n t i b =
    let e : n / 2 ^ t - 1 ≡ i / 2 ^ t = omega (arith, b.inside) in rw e (unit_start_le i (2 ^ t))

pub Belongs-high : (n t i : ℕ) → Belongs n t i → i < (n / 2 ^ t - 1) * 2 ^ t + 2 ^ t
Belongs-high n t i b =
    let e : n / 2 ^ t - 1 ≡ i / 2 ^ t = omega (arith, b.inside) in
    rw e (unit_end i (2 ^ t) (two-pow-pos t))

-- The tree ends before the last leaf.
pub Belongs-end : (n t i : ℕ) → Belongs n t i → (n / 2 ^ t - 1) * 2 ^ t + 2 ^ t ≤ n
Belongs-end n t i b =
    let one_more : n / 2 ^ t ≡ n / 2 ^ t - 1 + 1 = omega (arith, b.inside) in
    omega (arith, unit_start_le n (2 ^ t), ap (λ (x : ℕ). x * 2 ^ t) one_more)

pub Belongs-start : (n t i : ℕ) → Belongs n t i → clear_bits n (t + 1) ≡ (n / 2 ^ t - 1) * 2 ^ t
Belongs-start n t i b =
    let e : n / 2 ^ t - 1 ≡ i / 2 ^ t = omega (arith, b.inside) in rw e (clear_bits-start n t i b)

pub Belongs-height : (n t i : ℕ) → n < 2 ^ 64 → Belongs n t i → t < 64
Belongs-height n t i small b = elim (Bool-cases (ltb t 64)) [
  | inl lt ↦ ltb→lt t 64 lt
  | inr ge ↦
      let long = two-pow-le 64 t (ltb-false→le t 64 ge) in
      absurd (omega (arith, small, long, Belongs-end n t i b))
]

-- All indices of the range lie in the tree.
pub Belongs-range :
    (n t i m : ℕ)
    → Belongs n t i
    → (n / 2 ^ t - 1) * 2 ^ t ≤ m
    → m < (n / 2 ^ t - 1) * 2 ^ t + 2 ^ t
    → Belongs n t m
Belongs-range n t i m b lo hi = record {
  present = b.present;
  inside = omega (arith, b.inside, unit_of m (n / 2 ^ t - 1) (2 ^ t) lo (omega (arith, hi)));
}

-- The first leaf of a tree.
pub Belongs-first : (n t : ℕ) → n / 2 ^ t % 2 ≡ 1 → Belongs n t ((n / 2 ^ t - 1) * 2 ^ t)
Belongs-first n t odd =
    let pos = two-pow-pos t in
    record {
      present = odd;
      inside = omega (
        arith,
        odd,
        unit_of ((n / 2 ^ t - 1) * 2 ^ t) (n / 2 ^ t - 1) (2 ^ t) (omega arith)
            (omega (arith, pos)),
      );
    }

Belongs-not_below : (n t t' i : ℕ) → t < t' → Belongs n t i → Belongs n t' i → ⊥
Belongs-not_below n t t' i lt b b' =
    let next : i / 2 ^ suc t ≡ n / 2 ^ suc t =
      rw (div-two-pow-suc i t, div-two-pow-suc n t) (omega (arith, b.inside, b.present)) in
    absurd (omega (arith, b'.inside, div-same_above i n (suc t) t' lt next))

-- A leaf lies in one tree.
pub Belongs-unique : (n t t' i : ℕ) → Belongs n t i → Belongs n t' i → t ≡ t'
Belongs-unique n t t' i b b' = elim (Bool-cases (ltb t t')) [
  | inl lt ↦ absurd (Belongs-not_below n t t' i (ltb→lt t t' lt) b b')
  | inr ge ↦ elim (Bool-cases (ltb t' t)) [
    | inl lt ↦ absurd (Belongs-not_below n t' t i (ltb→lt t' t lt) b' b)
    | inr ge' ↦ omega (arith, ltb-false→le t t' ge, ltb-false→le t' t ge')
  ]
]

-- Where the paths of a leaf and of the next leaf meet, the leaf's tree is found.
pub Belongs-met :
    (n i m : ℕ) → i < n → n / 2 ^ suc m ≡ i / 2 ^ suc m → n / 2 ^ m ≢ i / 2 ^ m → Belongs n m i
Belongs-met n i m lt meet apart =
    let parents : n / 2 ^ m / 2 ≡ i / 2 ^ m / 2 =
      sym (div-two-pow-suc n m) ∙ meet ∙ div-two-pow-suc i m in
    let le : i / 2 ^ m ≤ n / 2 ^ m = div_mono i n (2 ^ m) (two-pow-pos m) (omega (arith, lt)) in
    record {
      present = omega (arith, parents, le, apart);
      inside = omega (arith, parents, le, apart);
    }

-- More leaves only make a leaf's tree higher.
pub Belongs-grows : (n n' t t' i : ℕ) → n ≤ n' → Belongs n t i → Belongs n' t' i → t ≤ t'
Belongs-grows n n' t t' i le b b' = elim (Bool-cases (ltb t' t)) [
  | inr ge ↦ ltb-false→le t' t ge
  | inl lt ↦
      let next : i / 2 ^ suc t' ≡ n' / 2 ^ suc t' =
        rw (div-two-pow-suc i t', div-two-pow-suc n' t') (omega (arith, b'.inside, b'.present)) in
      let same = div-same_above i n' (suc t') t (ltb→lt t' t lt) next in
      absurd (omega (arith, same, b.inside, div_mono n n' (2 ^ t) (two-pow-pos t) le))
]

module _ (crypto : Crypto) (leaf : ℕ → Hash256) where
  pub get_elem?-path :
      (t i j : ℕ)
      → j < t
      → get_elem? (path crypto leaf t i) j ≡ some (node crypto leaf j (sibling (i / 2 ^ j)))
  unfolding path
  get_elem?-path zero i j lt = absurd (omega (arith, lt))
  get_elem?-path (suc t) i j lt = elim (below-cases j t lt) [
    | inl lo ↦
        get_elem?-append_left (path crypto leaf t i) _ j
          (omega (arith, lo, length-path crypto leaf t i))
        ∙ get_elem?-path t i j lo
    | inr e ↦
        let len = length-path crypto leaf t i in
        rw e (
          subst
            (λ x.
              get_elem? (path crypto leaf t i ++ node crypto leaf t (sibling (i / 2 ^ t)) ∷ []) x
              ≡ some (node crypto leaf t (sibling (i / 2 ^ t))))
            len
            (get_elem?-append_last (path crypto leaf t i)
              (node crypto leaf t (sibling (i / 2 ^ t)))))
  ]

  -- The proof's length is the height of the tree.
  pub IsProof-length :
      (n i : ℕ) (p : List Hash256) (t : ℕ)
      → IsProof crypto leaf n i p
      → length p ≡ t
      → Belongs n t i × (p ≡ path crypto leaf t i)
  IsProof-length n i p t (s, b, e) len =
      let same : s ≡ t = sym (length-path crypto leaf s i) ∙ sym (ap length e) ∙ len in
      (subst (λ x. Belongs n x i) same b, e ∙ ap (λ x. path crypto leaf x i) same)
