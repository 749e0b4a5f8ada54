-- ===== src/Consensus/Apply.antt =====
-- consensus/update.go: ApplyBlock and RevertBlock, and the updates of the proofs in a transaction.
-- `none` is a panic.
pub mod Proofs
use sunyata.Common.{
  ℕ, zero, suc, ◌==◌, ltb, leb, not, ◌&&◌, ◌||◌, Bool, true, false, Option, none, some, List, [],
  ◌∷◌, ◌++◌, map, if◌then◌else◌,
}
use sunyata.Types.{
  Crypto, Hash256, ChainIndex, ElementId, StateElement, OutputElement, Input, Transaction,
  BlockHeader, Block, ephemeral_leaf_index, chain_index_eq, element_id_eq,
}
use sunyata.Identity.{parent_index, block_index}
use sunyata.Merkle.Hash.{ElementLeaf, output_leaf}
use sunyata.Merkle.History.{HistoryApplyUpdate}
use sunyata.Merkle.Update.{◌>>=◌}
use sunyata.Merkle.Elements.{
  ElementApplyUpdate, ElementRevertUpdate, apply_element_proof, revert_element_proof,
}
use sunyata.Merkle.Elements
use sunyata.Merkle.History
use sunyata.Consensus.State.{State}
use sunyata.Consensus.Header.{apply_header}
use sunyata.Consensus.Update.{updated_in_block, created_in_block}

pub record ApplyUpdate : Type 0 where
  pub elements : ElementApplyUpdate
  pub history : HistoryApplyUpdate
  pub state : State
  pub spent_outputs : List OutputElement
  pub new_output_elements : List OutputElement

-- A HistoryRevertUpdate holds the index of the block.
pub record RevertUpdate : Type 0 where
  pub elements : ElementRevertUpdate
  pub history : ChainIndex
  pub state : State
  pub spent_outputs : List OutputElement
  pub new_output_elements : List OutputElement

-- The identifiers of the ephemeral outputs that the block spends: the map `spent`.
unfoldable pub ephemeral_inputs : List Input → List ElementId
ephemeral_inputs [] = []
ephemeral_inputs (in' ∷ ins) =
    let rest = ephemeral_inputs ins in
    if in'.parent.leaf_index == ephemeral_leaf_index then in'.parent.id ∷ rest else rest

unfoldable pub ephemeral_spent : List Transaction → List ElementId
ephemeral_spent [] = []
ephemeral_spent (txn ∷ txns) = ephemeral_inputs txn.inputs ++ ephemeral_spent txns

unfoldable pub is_spent_id : List ElementId → ElementId → Bool
is_spent_id [] id = false
is_spent_id (i ∷ ids) id = element_id_eq i id || is_spent_id ids id

-- `au.NewOutputElements[i].StateElement = created[0].StateElement; created = created[1:]`
unfoldable pub place_outputs : List OutputElement → List ElementLeaf → Option (List OutputElement)
place_outputs [] created = some []
place_outputs (oe ∷ oes) [] = none
place_outputs (oe ∷ oes) (l ∷ ls) =
    place_outputs oes ls >>= λ rest. some (record oe { state_element = l.state_element } ∷ rest)

-- `s.Index.Height > 0 && s.Index != b.Header.ParentIndex()`, without the first test when reverting.
abbrev pub attaches : State → BlockHeader → Bool
attaches s h = chain_index_eq s.index (parent_index h)

-- OutputElementWasRemoved
unfoldable pub output_element_was_removed : RevertUpdate → OutputElement → Bool
output_element_was_removed ru oe =
    not (oe.leaf_index == ephemeral_leaf_index) && leb ru.state.elements.num_leaves oe.leaf_index

-- The loop of UpdateTransactionProofs, for the function that updates the proof of an element.
unfoldable pub update_inputs :
    (StateElement → Option StateElement) → List Input → Option (List Input)
update_inputs update [] = some []
update_inputs update (in' ∷ ins) =
    (if in'.parent.leaf_index == ephemeral_leaf_index
      then some in'.parent.state_element
      else update in'.parent.state_element)
    >>= λ e. update_inputs update ins >>= λ rest.
        some (record in' { parent = record in'.parent { state_element = e } } ∷ rest)

module _ (crypto : Crypto) where
  -- ApplyUpdate.UpdateTransactionProofs
  unfoldable pub apply_transaction_proofs : ApplyUpdate → Transaction → Option Transaction
  apply_transaction_proofs au txn =
      update_inputs (apply_element_proof crypto au.elements) txn.inputs >>= λ ins.
      some (record txn { inputs = ins })

  -- RevertUpdate.UpdateTransactionProofs
  unfoldable pub revert_transaction_proofs : RevertUpdate → Transaction → Option Transaction
  revert_transaction_proofs ru txn =
      update_inputs (revert_element_proof crypto ru.elements) txn.inputs >>= λ ins.
      some (record txn { inputs = ins })

  -- The leaves of the new outputs.
  unfoldable pub created_leaves : List ElementId → List OutputElement → List ElementLeaf
  created_leaves spent [] = []
  created_leaves spent (oe ∷ oes) =
      output_leaf crypto oe (is_spent_id spent oe.id) ∷ created_leaves spent oes

  -- ApplyBlock
  unfoldable pub apply_block : State → Block → Option ApplyUpdate
  apply_block s b =
      if ltb 0 s.index.height && not (attaches s b.header)
      then none
      else created_in_block crypto s b >>= λ outputs.
          let updated = updated_in_block crypto true b.transactions in
          let created = created_leaves (ephemeral_spent b.transactions) outputs in
          Elements.apply_block crypto s.elements (map (λ p. p.1) updated) created
          >>= λ (elements, eau, created'). place_outputs outputs created' >>= λ outputs'.
              let (history, hau) = History.apply_block crypto s.history (block_index crypto b) in
              apply_header crypto (record s { elements = elements; history = history }) b.header
              >>= λ s'. some (record {
                elements = eau;
                history = hau;
                state = s';
                spent_outputs = map (λ p. p.0) updated;
                new_output_elements = outputs';
              })

  -- RevertBlock; the header of a genesis block has height 0.
  unfoldable pub revert_block : State → Block → Option RevertUpdate
  revert_block s b =
      if (b.header.height == 0) || not (attaches s b.header)
      then none
      else created_in_block crypto s b >>= λ outputs.
          let updated = updated_in_block crypto false b.transactions in
          Elements.revert_block s.elements (map (λ p. p.1) updated) >>= λ eru. some (record {
            elements = eru;
            history = block_index crypto b;
            state = s;
            spent_outputs = map (λ p. p.0) updated;
            new_output_elements = outputs;
          })
