-- ===== src/Merkle/Accumulator/Tracking.antt =====
-- What the walk over the heights keeps: the roots stand for the leaves, and every tracked proof is
-- the path in the tree that its leaf lies in, or in the tree that is being built.
use sunyata.Common.{
  ℕ, zero, suc, ◌+◌, ◌-◌, ◌/◌, ◌%◌, ◌^◌, ◌≤◌, ◌<◌, ◌≡◌, sym, ap, ◌∙◌, ◌⊎◌, inl, inr, arith, List,
  [], ◌∷◌, ◌++◌, ◌==◌, ==_iff, Bool-cases,
}
use sunyata.Types.{Crypto, Hash256}
use sunyata.Merkle.Bits.{div-two-pow-suc, div-same_above}
use sunyata.Merkle.Hash.{ElementLeaf, leaf_hash}
use sunyata.Merkle.Forest.{node, path}
use sunyata.Merkle.Accumulator.{Accumulator, extend_proofs}
use sunyata.Merkle.Accumulator.Layout.{Belongs, Full, under_new, under_old, under_neither}

module _ (crypto : Crypto) (leaf : ℕ → Hash256) where
  -- Every root that the accumulator has is the root over the leaves of its tree.
  pub record Represents (acc : Accumulator) : Type 0 where
    pub roots :
        (h : ℕ)
        → acc.num_leaves / 2 ^ h % 2 ≡ 1
        → acc.trees h ≡ node crypto leaf h (acc.num_leaves / 2 ^ h - 1)

  -- With `n` leaves, `p` is the proof of leaf `i`: the whole path in its tree.
  abbrev pub IsProof : ℕ → ℕ → List Hash256 → Type 0
  IsProof n i p = (t : ℕ) × Belongs n t i × (p ≡ path crypto leaf t i)

  -- During the addition of leaf `n`, with the trees below `h` merged.
  abbrev pub Pending : ℕ → ℕ → ℕ → List Hash256 → Type 0
  Pending n h i p =
      ((i / 2 ^ h ≡ n / 2 ^ h) × (p ≡ path crypto leaf h i))
      ⊎ ((t : ℕ) × (h ≤ t) × Belongs n t i × (p ≡ path crypto leaf t i))

  module _ (n h i : ℕ) (p : List Hash256) (odd : n / 2 ^ h % 2 ≡ 1) where
    -- A proof under the new tree gets the old root.
    pub Pending-new :
        i / 2 ^ h ≡ n / 2 ^ h
        → Pending n h i p
        → Pending n (suc h) i (p ++ node crypto leaf h (n / 2 ^ h - 1) ∷ [])
    unfolding path
    Pending-new here (inl (_, e)) =
        inl (rw (div-two-pow-suc i h, div-two-pow-suc n h, here), ground arith)
    Pending-new here (inr (t, le, b, e)) =
        absurd (omega (arith, b.inside, div-same_above i n h t le here))

    -- A proof under the old tree gets the new root.
    pub Pending-old :
        i / 2 ^ h + 1 ≡ n / 2 ^ h
        → Pending n h i p
        → Pending n (suc h) i (p ++ node crypto leaf h (n / 2 ^ h) ∷ [])
    unfolding path
    Pending-old here (inl (same, e)) = absurd (omega arith)
    Pending-old here (inr (t, le, b, e)) = elim (Bool-cases (h == t)) [
      | inl eq ↦
          let e' : p ≡ path crypto leaf h i =
            e ∙ ap (λ (x : ℕ). path crypto leaf x i) (sym ((==_iff h t).0 eq)) in
          inl (together, ground arith)
      | inr ne ↦
          absurd (omega (arith, b.inside, div-same_above i n (suc h) t (ground arith) together))
    ]
      where
        together : i / 2 ^ suc h ≡ n / 2 ^ suc h
        together = rw (div-two-pow-suc i h, div-two-pow-suc n h) (omega arith)

    -- Any other proof stays.
    pub Pending-rest : i / 2 ^ h + 1 < n / 2 ^ h → Pending n h i p → Pending n (suc h) i p
    Pending-rest away (inl (same, e)) = absurd (omega arith)
    Pending-rest away (inr (t, le, b, e)) = elim (Bool-cases (h == t)) [
      | inl eq ↦
          let inside : i / 2 ^ h + 1 ≡ n / 2 ^ h = rw ((==_iff h t).0 eq) b.inside in
          absurd (omega arith)
      | inr ne ↦ inr (t, ground arith, b, e)
    ]

  -- The leaves of the batch, newest first, below the index `m`: their indices, their hashes and
  -- what `P` says of their proofs.
  abbrev pub Batch : (ℕ → List Hash256 → Type 0) → ℕ → List ElementLeaf → Type 0
  Batch P m [] = Unit
  Batch P zero (l ∷ ls) = ⊥
  Batch P (suc i) (l ∷ ls) =
      (l.leaf_index ≡ i) × (leaf_hash crypto l ≡ leaf i) × P i l.merkle_proof × Batch P i ls

  pub Batch-map :
      (P Q : ℕ → List Hash256 → Type 0) (m : ℕ)
      → ((i : ℕ) (p : List Hash256) → i < m → P i p → Q i p)
      → (ls : List ElementLeaf) → Batch P m ls
      → Batch Q m ls
  Batch-map P Q m f [] b = tt
  Batch-map P Q zero f (l ∷ ls) b = b
  Batch-map P Q (suc i) f (l ∷ ls) b = (
    b.0,
    b.1,
    f i l.merkle_proof (omega arith) b.2,
    Batch-map P Q i (λ j p lt. f j p (omega arith)) ls b.3,
  )

  -- The proofs of the batch after one merge at height `h`. Of the leaves below `m`, the next `a`
  -- lie under the new tree and the `b` after them under the old one.
  pub extend_proofs-Batch :
      (n h a b m : ℕ) (ls : List ElementLeaf)
      → Full n h
      → n / 2 ^ h % 2 ≡ 1
      → a ≤ 2 ^ h
      → b ≤ 2 ^ h
      → (0 < a → b ≡ 2 ^ h)
      → m + 2 ^ h + 2 ^ h ≡ n + 1 + a + b
      → Batch (Pending n h) m ls
      → Batch (Pending n (suc h)) m (
          extend_proofs a b
            (node crypto leaf h (n / 2 ^ h - 1))
            (node crypto leaf h (n / 2 ^ h))
            ls)
  unfolding extend_proofs leaf_hash
  extend_proofs-Batch n h a b m [] full odd la lb order at t = tt
  extend_proofs-Batch n h a b zero (l ∷ ls) full odd la lb order at t = absurd t
  extend_proofs-Batch n h (suc a) b (suc i) (l ∷ ls) full odd la lb order at t = (
    t.0,
    t.1,
    Pending-new n h i l.merkle_proof odd
        (under_new n h i full (omega (arith, at, order)) (omega (arith, at))) t.2,
    extend_proofs-Batch n h a b i ls full odd (omega arith) lb (λ _. order (omega arith))
        (omega arith) t.3,
  )
  extend_proofs-Batch n h zero (suc b) (suc i) (l ∷ ls) full odd la lb order at t = (
    t.0,
    t.1,
    Pending-old n h i l.merkle_proof odd (under_old n h i full odd (omega arith) (omega arith)) t.2,
    extend_proofs-Batch n h zero b i ls full odd la (omega arith)
        (λ none_left. absurd (omega arith)) (omega arith) t.3,
  )
  extend_proofs-Batch n h zero zero (suc i) (l ∷ ls) full odd la lb order at t =
      Batch-map (Pending n h) (Pending n (suc h)) (suc i)
        (λ j p below. Pending-rest n h j p odd (under_neither n h j full odd (omega arith)))
        (l ∷ ls) t
