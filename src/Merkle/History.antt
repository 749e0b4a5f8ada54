-- ===== src/Merkle/History.antt =====
-- merkle/accumulator.go: HistoryAccumulator, an accumulator of the indices of the chain.
use sunyata.Common.{
  ℕ, zero, suc, ◌++◌, Bool, true, false, ◌&&◌, List, [], ◌∷◌, Option, none, some, length, drop,
  get_elem?, ltb, bytes_eq, if◌then◌else◌,
}
use sunyata.Types.{Crypto, Hash256, ChainIndex}
use sunyata.Merkle.Hash.{node_hash, history_leaf_hash, history_proof_root}
use sunyata.Merkle.Accumulator.{Accumulator, has_tree_at_height, insert_tree}

pub record HistoryApplyUpdate : Type 0 where
  pub proof : List Hash256
  pub growth : List Hash256

-- HistoryApplyUpdate.UpdateProof; `none` is an index out of range.
unfoldable pub update_proof : HistoryApplyUpdate → List Hash256 → Option (List Hash256)
update_proof hau proof =
    if ltb (length proof) (length hau.growth)
    then elim (get_elem? hau.growth (length proof)) [
      | none ↦ none
      | some h ↦
          let grown = proof ++ h ∷ [] in
          if ltb (length hau.proof) (length grown)
          then none
          else some (grown ++ drop (length grown) hau.proof)
    ]
    else some proof

module _ (crypto : Crypto) where
  -- HistoryAccumulator.Contains
  unfoldable pub contains : Accumulator → ChainIndex → List Hash256 → Bool
  contains acc index proof =
      has_tree_at_height acc (length proof)
      && bytes_eq (acc.trees (length proof)) (history_proof_root crypto index proof)

  -- The loop of ApplyBlock over the heights, from `i`, where 64 - `fuel` heights are done.
  unfoldable pub merge :
      ℕ → ℕ → Hash256 → Accumulator → HistoryApplyUpdate → Accumulator × HistoryApplyUpdate
  merge zero i h acc hau = (acc, hau)
  merge (suc fuel) i h acc hau = elim (has_tree_at_height acc i) [
    | false ↦ (insert_tree acc i h, hau)
    | true ↦
        merge fuel (suc i) (node_hash crypto (acc.trees i) h) acc
          (record { proof = hau.proof ++ acc.trees i ∷ []; growth = hau.growth ++ h ∷ [] })
  ]

  -- HistoryAccumulator.ApplyBlock
  unfoldable pub apply_block : Accumulator → ChainIndex → Accumulator × HistoryApplyUpdate
  apply_block acc index =
      merge 64 0 (history_leaf_hash crypto index) acc (record { proof = []; growth = [] })
