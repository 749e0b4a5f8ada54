-- ===== src/Merkle/Elements/Applied.antt =====
-- ElementAccumulator.ApplyBlock and ElementApplyUpdate.UpdateElementProof.
use sunyata.Common.{
  ℕ, ◌+◌, ◌^◌, ◌≤◌, ◌<◌, ◌≡◌, ◌⊎◌, refl, sym, ap, ◌∙◌, arith, true, false, some, List, ◌++◌, length,
  All, subst, ◌==◌,
}
use sunyata.Types.{Crypto, Hash256, StateElement, ephemeral_leaf_index}
use sunyata.Merkle.Hash.{ElementLeaf, leaf_hash}
use sunyata.Merkle.Forest.{path}
use sunyata.Merkle.Accumulator.{Accumulator, contains_leaf, add_leaves}
use sunyata.Merkle.Accumulator.Layout.{Belongs}
use sunyata.Merkle.Accumulator.Tracking.{Represents, IsProof}
use sunyata.Merkle.Accumulator.Leaves.{Continues, add_leaves-Represents, add_leaves-grown}
use sunyata.Merkle.Update.{◌>>=◌}
use sunyata.Merkle.Update.Recompute.{Touches}
use sunyata.Merkle.Update.Groups.{Distinct}
use sunyata.Merkle.Update.Places.{Belongs-height, Belongs-high, Belongs-end}
use sunyata.Merkle.Update.Overwrite.{update_leaves-Overwritten}
use sunyata.Merkle.Elements.{ElementApplyUpdate, apply_block, apply_element_proof}
use sunyata.Merkle.Elements.Updated.{update_proof_lem}

module _ (crypto : Crypto) (leaf leaf' : ℕ → Hash256) (acc : Accumulator)
    (updated added : List ElementLeaf) (rep : Represents crypto leaf acc)
    (small : acc.num_leaves ≤ 2 ^ 63) (room : acc.num_leaves + length added < 2 ^ 64)
    (distinct : Distinct updated)
    (proofs : All (λ l. IsProof crypto leaf acc.num_leaves l.leaf_index l.merkle_proof) updated)
    (hashed : All (λ l. leaf_hash crypto l ≡ leaf' l.leaf_index) updated)
    (others : (m : ℕ) → m < acc.num_leaves → (leaf' m ≡ leaf m) ⊎ Touches m updated)
    (continues : Continues crypto leaf' acc.num_leaves added) where
  -- The result of ApplyBlock, from that of updateLeaves.
  abbrev outcome :
      Accumulator → (ℕ → List ElementLeaf) → Accumulator × ElementApplyUpdate × List ElementLeaf
  outcome acc' trees =
      let (acc'', added', growth) = add_leaves crypto acc' added in
      (acc'', record { updated = trees; tree_growth = growth }, added')

  -- ApplyBlock never panics on an accumulator that stands for `leaf` and updated leaves with
  -- different indices and proofs over `leaf`: it gives one that stands for `leaf'`, the sequence with
  -- the updated leaves overwritten and the added ones at the end, and that contains every added leaf
  -- with the proof that it got. The accumulator has at most 2^63 leaves before, and fewer than 2^64
  -- after.
  pub apply_block-Represents :
      (acc' : Accumulator) × (eau : ElementApplyUpdate) × (added' : List ElementLeaf) × (apply_block
          crypto acc updated added
        ≡ some (acc', eau, added'))
      × (acc'.num_leaves ≡ acc.num_leaves + length added)
      × Represents crypto leaf' acc'
      × All (λ l. contains_leaf crypto acc' l ≡ true) added'
  unfolding apply_block
  apply_block-Represents =
      let (acc', trees, found, o) =
        update_leaves-Overwritten crypto leaf leaf' acc updated rep small distinct proofs hashed
          others in
      let more =
        add_leaves-Represents crypto leaf' acc' added o.rep
          (subst (λ n. n + length added < 2 ^ 64) (sym o.counted) room)
          (subst (λ n. Continues crypto leaf' n added) (sym o.counted) continues) in
      (
        (outcome acc' trees).0,
        (outcome acc' trees).1,
        (outcome acc' trees).2,
        ap (λ r. r >>= λ (a, t). some (outcome a t)) found,
        more.0 ∙ ap (λ n. n + length added) o.counted,
        more.1,
        more.2,
      )

  -- After such a block, UpdateElementProof takes the proof over `leaf` of any element whose leaf has
  -- its new hash to the proof over `leaf'`, with which the new accumulator contains the element.
  pub apply_element_proof-contains :
      (l : ElementLeaf)
      → IsProof crypto leaf acc.num_leaves l.leaf_index l.merkle_proof
      → leaf_hash crypto l ≡ leaf' l.leaf_index
      → (acc' : Accumulator) × (eau : ElementApplyUpdate) × (added' : List ElementLeaf)
        × (e : StateElement) × (apply_block crypto acc updated added ≡ some (acc', eau, added'))
        × (apply_element_proof crypto eau l.state_element ≡ some e)
        × (e ≡ record l.state_element { merkle_proof = e.merkle_proof })
        × IsProof crypto leaf' acc'.num_leaves l.leaf_index e.merkle_proof
        × (contains_leaf crypto acc' (record l { state_element = e }) ≡ true)
  unfolding apply_block apply_element_proof leaf_hash
  apply_element_proof-contains l (t, b, p) hash =
      let (acc', trees, found, o) =
        update_leaves-Overwritten crypto leaf leaf' acc updated rep small distinct proofs hashed
          others in
      let height = Belongs-height acc.num_leaves t l.leaf_index (omega (arith, small)) b in
      let new =
        update_proof_lem crypto leaf leaf' acc.num_leaves t l.state_element trees small b p
          (o.replaced t height) (λ m at. o.touched t m height at) in
      let low : (l.leaf_index == ephemeral_leaf_index) ≡ false = ground (
        arith,
        small,
        Belongs-high acc.num_leaves t l.leaf_index b,
        Belongs-end acc.num_leaves t l.leaf_index b,
      ) in
      let grown =
        add_leaves-grown crypto leaf' acc' added o.rep
          (subst (λ n. n + length added < 2 ^ 64) (sym o.counted) room)
          (subst (λ n. Continues crypto leaf' n added) (sym o.counted) continues)
          (record l {
            state_element = record l.state_element {
              merkle_proof = path crypto leaf' t l.leaf_index;
            };
          })
          hash (t, subst (λ n. Belongs n t l.leaf_index) (sym o.counted) b, refl) in
      (
        (outcome acc' trees).0,
        (outcome acc' trees).1,
        (outcome acc' trees).2,
        record l.state_element {
          merkle_proof =
              path crypto leaf' t l.leaf_index
              ++ (outcome acc' trees).1.tree_growth (length (path crypto leaf' t l.leaf_index));
        },
        ap (λ r. r >>= λ (a, s). some (outcome a s)) found,
        rw (low, new) refl,
        refl,
        grown.0,
        grown.1,
      )
