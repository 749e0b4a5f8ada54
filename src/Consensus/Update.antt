-- ===== src/Consensus/Update.antt =====
-- consensus/update.go: the elements that a block spends and creates.
use sunyata.Common.{
  ℕ, ◌==◌, ◌||◌, Bool, false, Option, none, some, List, [], ◌∷◌, ◌++◌, if◌then◌else◌,
}
use sunyata.Common.Word.{add_u64}
use sunyata.Types.{
  Crypto, Hash256, Output, OutputElement, Input, Transaction, Block, ephemeral_leaf_index,
}
use sunyata.Identity.{transaction_id, miner_output_id}
use sunyata.Merkle.Hash.{ElementLeaf, output_leaf}
use sunyata.Consensus.State.{State, block_reward, maturity_height}

-- OutputElementWasSpent, on the spent outputs of an ApplyUpdate.
unfoldable pub output_element_was_spent : List OutputElement → OutputElement → Bool
output_element_was_spent [] oe = false
output_element_was_spent (spent ∷ spents) oe =
    (spent.leaf_index == oe.leaf_index) || output_element_was_spent spents oe

-- The elements of a transaction's outputs, from `index` on.
unfoldable pub created_outputs : Hash256 → ℕ → List Output → List OutputElement
created_outputs txid index [] = []
created_outputs txid index (out ∷ outs) =
    record {
      state_element = record {
        id = record { source = txid; index = index };
        leaf_index = 0;
        merkle_proof = [];
      };
      output = out;
      maturity_height = 0;
    }
    ∷ created_outputs txid (add_u64 index 1) outs

module _ (crypto : Crypto) where
  -- The loop of updatedInBlock over the inputs of a transaction.
  unfoldable pub updated_inputs : Bool → List Input → List (OutputElement × ElementLeaf)
  updated_inputs apply [] = []
  updated_inputs apply (in' ∷ ins) =
      let rest = updated_inputs apply ins in
      if in'.parent.leaf_index == ephemeral_leaf_index
      then rest
      else (in'.parent, output_leaf crypto in'.parent apply) ∷ rest

  -- updatedInBlock: the elements paired with their leaves.
  unfoldable pub updated_in_block : Bool → List Transaction → List (OutputElement × ElementLeaf)
  updated_in_block apply [] = []
  updated_in_block apply (txn ∷ txns) =
      updated_inputs apply txn.inputs ++ updated_in_block apply txns

  unfoldable pub created_by_all : List Transaction → List OutputElement
  created_by_all [] = []
  created_by_all (txn ∷ txns) =
      created_outputs (transaction_id crypto txn) 0 txn.outputs ++ created_by_all txns

  -- createdInBlock; `none` is a panic of the block reward.
  unfoldable pub created_in_block : State → Block → Option (List OutputElement)
  created_in_block s b = elim (block_reward s) [
    | none ↦ none
    | some reward ↦ some (
        record {
          state_element = record {
            id = miner_output_id crypto b;
            leaf_index = 0;
            merkle_proof = [];
          };
          output = record { value = reward; address = b.header.miner_address };
          maturity_height = maturity_height s;
        }
        ∷ created_by_all b.transactions)
  ]
