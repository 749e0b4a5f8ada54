-- ===== src/Merkle/Elements.antt =====
-- merkle/accumulator.go: updateProof, and the updates of the ElementAccumulator by a block and by its
-- removal. `none` is a panic.
pub mod Proofs
pub mod Updated
pub mod Applied
pub mod Reverted
use sunyata.Common.{
  ℕ, zero, suc, ◌-◌, Bool, ◌||◌, Option, none, some, List, [], ◌∷◌, ◌++◌, length, take, set_elem,
  copy_from, ltb, leb, ◌==◌, if◌then◌else◌,
}
use sunyata.Types.{Crypto, Hash256, StateElement, ephemeral_leaf_index}
use sunyata.Merkle.Bits.{merge_height}
use sunyata.Merkle.Hash.{ElementLeaf, leaf_hash, proof_root}
use sunyata.Merkle.Accumulator.{Accumulator, update, add_leaves}
use sunyata.Merkle.Update.{update_leaves, ◌>>=◌}

pub record ElementApplyUpdate : Type 0 where
  pub updated : ℕ → List ElementLeaf
  pub tree_growth : ℕ → List Hash256

pub record ElementRevertUpdate : Type 0 where
  pub updated : ℕ → List ElementLeaf
  pub num_leaves : ℕ

-- The loop of ElementAccumulator.RevertBlock.
unfoldable pub collect : List ElementLeaf → (ℕ → List ElementLeaf) → Option (ℕ → List ElementLeaf)
collect [] trees = some trees
collect (l ∷ ls) trees =
    let n = length l.merkle_proof in
    let next = collect ls (update trees n (trees n ++ l ∷ [])) in if ltb n 64 then next else none

-- ElementAccumulator.RevertBlock
unfoldable pub revert_block : Accumulator → List ElementLeaf → Option ElementRevertUpdate
revert_block acc updated = collect updated (λ h. []) >>= λ trees.
    some (record { updated = trees; num_leaves = acc.num_leaves })

-- `e` with its proof cut off below the height at which its path meets that of the next leaf.
unfoldable pub truncate : ℕ → StateElement → StateElement
truncate num_leaves e =
    let mh = merge_height num_leaves e.leaf_index in
    if leb mh (length e.merkle_proof)
    then record e { merkle_proof = take (mh - 1) e.merkle_proof }
    else e

-- The updated leaf with the lowest mergeHeight, where `best` is the closest so far.
unfoldable pub closest : ℕ → ElementLeaf → List ElementLeaf → ElementLeaf
closest i best [] = best
closest i best (ul ∷ uls) =
    closest i
      (if ltb (merge_height i ul.leaf_index) (merge_height i best.leaf_index) then ul else best) uls

module _ (crypto : Crypto) where
  -- updateProof; a proof of more than 63 entries is out of range.
  unfoldable pub update_proof : StateElement → (ℕ → List ElementLeaf) → Option StateElement
  update_proof e updated =
      if ltb (length e.merkle_proof) 64
      then elim (updated (length e.merkle_proof)) [
        | [] ↦ some e
        | ul ∷ uls ↦
            let best = closest e.leaf_index ul uls in
            if best.leaf_index == e.leaf_index
            then some (record e { merkle_proof = copy_from 0 e.merkle_proof best.merkle_proof })
            else let mh = merge_height e.leaf_index best.leaf_index in
              if ltb (length e.merkle_proof) mh || ltb (length best.merkle_proof) mh
              then none
              else some (record e {
                merkle_proof = set_elem (copy_from mh e.merkle_proof best.merkle_proof) (mh - 1) (
                    proof_root crypto (leaf_hash crypto best) best.leaf_index
                      (take (mh - 1) best.merkle_proof));
              })
      ]
      else none

  -- ElementAccumulator.ApplyBlock; the second list are the added leaves with their proofs, which
  -- the code leaves in its argument.
  unfoldable pub apply_block :
      Accumulator
      → List ElementLeaf
      → List ElementLeaf
      → Option (Accumulator × ElementApplyUpdate × List ElementLeaf)
  apply_block acc updated added = update_leaves crypto acc updated >>= λ (acc', trees).
      let (acc'', added', growth) = add_leaves crypto acc' added in
      some (acc'', record { updated = trees; tree_growth = growth }, added')

  -- ElementApplyUpdate.UpdateElementProof
  unfoldable pub apply_element_proof : ElementApplyUpdate → StateElement → Option StateElement
  apply_element_proof eau e =
      if e.leaf_index == ephemeral_leaf_index
      then none
      else update_proof e eau.updated >>= λ e'.
          some (record e' {
            merkle_proof = e'.merkle_proof ++ eau.tree_growth (length e'.merkle_proof);
          })

  -- ElementRevertUpdate.UpdateElementProof
  unfoldable pub revert_element_proof : ElementRevertUpdate → StateElement → Option StateElement
  revert_element_proof eru e =
      if e.leaf_index == ephemeral_leaf_index || leb eru.num_leaves e.leaf_index
      then none
      else update_proof (truncate eru.num_leaves e) eru.updated
