-- ===== src/Merkle/Forest.antt =====
-- What the accumulator stands for: an unbounded sequence of leaf hashes, the perfect trees over
-- aligned ranges of it, and the path from a leaf to the root of such a tree.
use native.Mathlib.Nat.{zero-add}
use sunyata.Common.{
  ℕ, zero, suc, ◌+◌, ◌*◌, ◌/◌, ◌%◌, ◌^◌, ◌≡◌, refl, ap, List, [], ◌∷◌, ◌++◌, length, length-append,
  arith, ◌==◌, if◌then◌else◌,
}
use sunyata.Types.{Crypto, Hash256}
use sunyata.Merkle.Bits.{bit, sibling, div-two-pow-suc}
use sunyata.Merkle.Hash.{node_hash, proof_root, proof_root_from}

module _ (crypto : Crypto) (leaf : ℕ → Hash256) where
  -- The root of the perfect tree of height `h` over the leaves from `k * 2 ^ h`.
  unfoldable pub node : ℕ → ℕ → Hash256
  node zero k = leaf k
  node (suc h) k = node_hash crypto (node h (2 * k)) (node h (2 * k + 1))

  -- The siblings on the way from leaf `i` up to height `h`, lowest first.
  unfoldable pub path : ℕ → ℕ → List Hash256
  path zero i = []
  path (suc h) i = path h i ++ node h (sibling (i / 2 ^ h)) ∷ []

  pub length-path : (h i : ℕ) → length (path h i) ≡ h
  unfolding path
  length-path zero i = refl
  length-path (suc h) i = omega (arith, length-append (path h i), length-path h i)

  -- One level up, from either child.
  node_up :
      (h k : ℕ)
      → (if k % 2 == 1
          then node_hash crypto (node h (sibling k)) (node h k)
          else node_hash crypto (node h k) (node h (sibling k)))
        ≡ node (suc h) (k / 2)
  unfolding node
  node_up h k = ground arith

module _ (crypto : Crypto) where
  proof_root_from-append :
      (j : ℕ) (root : Hash256) (i : ℕ) (proof : List Hash256) (s : Hash256)
      → proof_root_from crypto j root i (proof ++ s ∷ []) ≡ (
          if bit i (j + length proof)
          then node_hash crypto s (proof_root_from crypto j root i proof)
          else node_hash crypto (proof_root_from crypto j root i proof) s)
  unfolding proof_root_from
  proof_root_from-append j root i [] s = let e : j + 0 ≡ j = omega arith in rw e
  proof_root_from-append j root i (h ∷ proof) s =
      let e : j + suc (length proof) ≡ suc j + length proof = omega arith in
      rw e (proof_root_from-append (suc j) _ i proof s)

  -- A leaf's path leads to the root of its tree.
  pub proof_root-path :
      (leaf : ℕ → Hash256) (h i : ℕ)
      → proof_root crypto (leaf i) i (path crypto leaf h i) ≡ node crypto leaf h (i / 2 ^ h)
  unfolding proof_root path node
  proof_root-path leaf zero i = ap leaf (omega arith)
  proof_root-path leaf (suc h) i =
      rw
        (
          proof_root_from-append 0 (leaf i) i (path crypto leaf h i),
          length-path crypto leaf h i,
          div-two-pow-suc,
          zero-add,
          proof_root-path leaf h i,
        )
        (node_up crypto leaf h (i / 2 ^ h))
