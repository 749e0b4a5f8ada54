-- ===== src/Merkle/Accumulator/Leaves.antt =====
-- addLeaves as a whole: from an accumulator that stands for a sequence of leaves to one that stands
-- for the longer sequence, with proofs for the new leaves and the growth of the old proofs.
use mathlib.Core.List.{reverse, reverse-cons}
use native.Mathlib.Nat.{add-zero}
use sunyata.Common.{
  ℕ, zero, suc, ◌+◌, ◌-◌, ◌/◌, ◌^◌, ◌<◌, ◌≡◌, refl, sym, ap, ◌∙◌, inl, inr, arith, List, [], ◌∷◌,
  ◌++◌, true, length, subst, append-nil, All, All-append, ==_iff, bytes_eq_refl,
}
use sunyata.Types.{Crypto, Hash256}
use sunyata.Merkle.Hash.{ElementLeaf, leaf_hash, leaf_proof_root}
use sunyata.Merkle.Forest.{node, path, length-path, proof_root-path}
use sunyata.Merkle.Accumulator.{
  Accumulator, Adding, placed, contains_leaf, add_leaf, add_all, add_leaves,
}
use sunyata.Merkle.Accumulator.Layout.{Belongs}
use sunyata.Merkle.Accumulator.Tracking.{Represents, IsProof, Pending, Batch, Batch-map}
use sunyata.Merkle.Accumulator.Walk.{Settled, walk-Settled}

module _ (crypto : Crypto) (leaf : ℕ → Hash256) where
  -- The sequence `leaf` goes on, from index `n`, with the leaves that are added.
  abbrev pub Continues : ℕ → List ElementLeaf → Type 0
  Continues n [] = Unit
  Continues n (l ∷ ls) = (leaf n ≡ leaf_hash crypto (placed l n)) × Continues (n + 1) ls

  position : (n t i : ℕ) → Belongs n t i → n / 2 ^ t - 1 ≡ i / 2 ^ t
  position n t i b = omega (arith, b.inside)

  -- A leaf with its proof is contained.
  pub IsProof-contains :
      (acc : Accumulator) (l : ElementLeaf)
      → Represents crypto leaf acc
      → leaf_hash crypto l ≡ leaf l.leaf_index
      → IsProof crypto leaf acc.num_leaves l.leaf_index l.merkle_proof
      → contains_leaf crypto acc l ≡ true
  unfolding contains_leaf leaf_proof_root
  IsProof-contains acc l rep hash (t, b, e) = rw (
    hash,
    e,
    length-path crypto leaf t l.leaf_index,
    proof_root-path crypto leaf t l.leaf_index,
    (==_iff _ _).1 b.present,
    rep.roots t b.present ∙ ap (node crypto leaf t) (position acc.num_leaves t l.leaf_index b),
    bytes_eq_refl,
  )

  start-Pending :
      (n i : ℕ) (p : List Hash256) → IsProof crypto leaf n i p → Pending crypto leaf n 0 i p
  start-Pending n i p (t, b, e) = inr (t, omega arith, b, e)

  add_leaf-Settled :
      (initial : ℕ) (s : Adding) (l : ElementLeaf)
      → Settled crypto leaf initial s.num_leaves s
      → s.num_leaves + 1 < 2 ^ 64
      → leaf s.num_leaves ≡ leaf_hash crypto (placed l s.num_leaves)
      → Settled crypto leaf initial (s.num_leaves + 1) (add_leaf crypto initial s l)
  unfolding add_leaf
  add_leaf-Settled initial s l w small e =
      walk-Settled crypto leaf 64 initial 0 (leaf_hash crypto (placed l s.num_leaves))
        (record s { batch = placed l s.num_leaves ∷ s.batch }) refl
        (record {
          full = omega arith;
          small = small;
          built = built;
          rep = w.rep;
          batch_lem = (
            refl,
            sym e,
            inl (refl, first_path),
            Batch-map crypto leaf (IsProof crypto leaf s.num_leaves) _ s.num_leaves
                (λ i p lt. start-Pending s.num_leaves i p) s.batch w.batch_lem,
          );
          grown = λ b i old. start-Pending s.num_leaves i _ (w.grown b i old);
        })
    where
      built : leaf_hash crypto (placed l s.num_leaves) ≡ node crypto leaf 0 (s.num_leaves / 2 ^ 0)
      built = unfold node in (sym e ∙ ap leaf (omega arith))

      first_path : [] ≡ path crypto leaf 0 s.num_leaves
      first_path = unfold path in refl

  -- The same at a count that the number of leaves equals.
  add_leaf-Settled_at :
      (initial count : ℕ) (s : Adding) (l : ElementLeaf)
      → Settled crypto leaf initial count s
      → count + 1 < 2 ^ 64
      → leaf count ≡ leaf_hash crypto (placed l count)
      → Settled crypto leaf initial (count + 1) (add_leaf crypto initial s l)
  add_leaf-Settled_at initial count s l w =
      subst
        (λ c.
          Settled crypto leaf initial c s
          → c + 1 < 2 ^ 64
          → leaf c ≡ leaf_hash crypto (placed l c)
          → Settled crypto leaf initial (c + 1) (add_leaf crypto initial s l))
        w.counted (add_leaf-Settled initial s l) w

  add_all-Settled :
      (initial count : ℕ) (s : Adding) (ls : List ElementLeaf)
      → Settled crypto leaf initial count s
      → count + length ls < 2 ^ 64
      → Continues count ls
      → Settled crypto leaf initial (count + length ls) (add_all crypto initial s ls)
  unfolding add_all
  add_all-Settled initial count s [] w small e = rw (add-zero) w
  add_all-Settled initial count s (l ∷ ls) w small e =
      let next : count + suc (length ls) ≡ count + 1 + length ls = omega arith in
      rw next (
        add_all-Settled initial (count + 1) (add_leaf crypto initial s l) ls
          (add_leaf-Settled_at initial count s l w (omega arith) e.0) (omega arith) e.1)

  -- The leaves of a batch are contained, in either order.
  Batch-contains :
      (acc : Accumulator) (m : ℕ) (ls : List ElementLeaf)
      → Represents crypto leaf acc
      → Batch crypto leaf (IsProof crypto leaf acc.num_leaves) m ls
      → All (λ l. contains_leaf crypto acc l ≡ true) ls
  Batch-contains acc m [] rep b = tt
  Batch-contains acc zero (l ∷ ls) rep b = absurd b
  Batch-contains acc (suc i) (l ∷ ls) rep b = (
    IsProof-contains acc l rep (b.1 ∙ ap leaf (sym b.0))
        (subst (λ x. IsProof crypto leaf acc.num_leaves x l.merkle_proof) (sym b.0) b.2),
    Batch-contains acc i ls rep b.3,
  )

All-reverse {ℓ κ} : {A : Type ℓ} (P : A → Type κ) (xs : List A) → All P xs → All P (reverse xs)
All-reverse P [] h = tt
All-reverse P (x ∷ xs) h =
    rw (reverse-cons x xs) (All-append P (reverse xs) (x ∷ []) (All-reverse P xs h.1) (h.0, tt))

module _ (crypto : Crypto) (leaf : ℕ → Hash256) (acc : Accumulator) (leaves : List ElementLeaf)
    (rep : Represents crypto leaf acc) (small : acc.num_leaves + length leaves < 2 ^ 64)
    (continues : Continues crypto leaf acc.num_leaves leaves) where
  abbrev after : Adding
  after = add_all crypto acc.num_leaves (record { acc = acc; batch = []; growth = λ b. [] }) leaves

  settled : Settled crypto leaf acc.num_leaves (acc.num_leaves + length leaves) after
  settled =
      add_all-Settled crypto leaf acc.num_leaves acc.num_leaves _ leaves
        (record {
          counted = refl;
          rep = rep;
          batch_lem = tt;
          grown = λ b i old. (b, old, append-nil _);
        })
        small continues

  -- Adding leaves to an accumulator that stands for a sequence of leaf hashes gives one that stands
  -- for the longer sequence, with the leaves counted and every new leaf contained, with the proof
  -- that it got. The number of leaves must stay below 2^64.
  pub add_leaves-Represents :
      let (acc', added, growth) = add_leaves crypto acc leaves in
      (acc'.num_leaves ≡ acc.num_leaves + length leaves)
      × Represents crypto leaf acc'
      × All (λ l. contains_leaf crypto acc' l ≡ true) added
  unfolding add_leaves
  add_leaves-Represents = (
    settled.counted,
    settled.rep,
    All-reverse _ after.batch (
        Batch-contains crypto leaf after.acc (acc.num_leaves + length leaves) after.batch
          settled.rep (rw settled.counted settled.batch_lem)),
  )

  -- The proof of an old leaf, followed by the growth of the tree that it was in, is its proof in
  -- the new accumulator, which contains the leaf with it.
  pub add_leaves-grown :
      (l : ElementLeaf)
      → leaf_hash crypto l ≡ leaf l.leaf_index
      → IsProof crypto leaf acc.num_leaves l.leaf_index l.merkle_proof
      → let (acc', added, growth) = add_leaves crypto acc leaves in
        let l' : ElementLeaf = record l {
          state_element = record l.state_element {
            merkle_proof = l.merkle_proof ++ growth (length l.merkle_proof);
          };
        } in
        IsProof crypto leaf acc'.num_leaves l.leaf_index l'.merkle_proof
        × (contains_leaf crypto acc' l' ≡ true)
  unfolding add_leaves
  add_leaves-grown l hash (t, b, e) =
      (grown, IsProof-contains crypto leaf after.acc _ settled.rep (unfold leaf_hash in hash) grown)
    where
      from_path : IsProof crypto leaf after.num_leaves l.leaf_index (
          path crypto leaf t l.leaf_index
          ++ after.growth (length (path crypto leaf t l.leaf_index)))
      from_path =
          rw (length-path crypto leaf t l.leaf_index, settled.counted)
            (settled.grown t l.leaf_index b)

      grown :
          IsProof crypto leaf after.num_leaves l.leaf_index
            (l.merkle_proof ++ after.growth (length l.merkle_proof))
      grown =
          subst
            (λ p. IsProof crypto leaf after.num_leaves l.leaf_index (p ++ after.growth (length p)))
            (sym e) from_path
