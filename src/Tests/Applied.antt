-- ===== src/Tests/Applied.antt =====
-- A state with three elements, and a block that spends the first.
use sunyata.Common.{
  ℕ, ◌+◌, ◌-◌, ◌/◌, ◌^◌, ◌≤◌, ◌<◌, ◌≡◌, inl, inr, refl, arith, true, false, Option, none, some,
  List, [], ◌∷◌, length, map, All, Pairs,
}
use sunyata.Types.{Hash256, StateElement, OutputElement, Input, Transaction, BlockHeader, Block}
use sunyata.Identity.{
  transaction_id, header_id, header_index, parent_index, block_index, miner_output_id,
}
use sunyata.Merkle.Hash.{ElementLeaf, leaf_hash, output_leaf}
use sunyata.Merkle.Forest.{node, path}
use sunyata.Merkle.Accumulator.{Accumulator, placed}
use sunyata.Merkle.Accumulator.Tracking.{Represents}
use sunyata.Consensus.State.{State}
use sunyata.Consensus.Update.{updated_in_block, created_in_block}
use sunyata.Consensus.Apply.{ApplyUpdate, apply_block, apply_transaction_proofs}
use sunyata.Consensus.Apply.Proofs.{Present, Refreshed, apply_transaction_proofs-Present}
use sunyata.Tests.Data.{toy, parent, payment, state, header}

-- Every leaf is of the same output, and the hash forgets whether it is spent.
abbrev pub leaf : ℕ → Hash256
leaf i = leaf_hash toy (placed (output_leaf toy parent false) i)

abbrev three : Accumulator
three = record { trees = λ h. node toy leaf h (3 / 2 ^ h - 1); num_leaves = 3 }

three-Represents : Represents toy leaf three
three-Represents = record { roots = λ h odd. refl }

abbrev pub rich : State
rich = record state { elements = three; history = record { trees = λ h. []; num_leaves = 0 } }

abbrev pub element : ℕ → List Hash256 → OutputElement
element i proof = record parent {
  state_element = record parent.state_element { leaf_index = i; merkle_proof = proof };
}

abbrev pub spend : OutputElement → Transaction
spend oe = record payment {
  inputs = record { parent = oe; public_key = 7 ∷ []; signature = 9 ∷ [] } ∷ [];
}

abbrev pub spending : Block
spending = record { header = header; transactions = spend (element 0 (path toy leaf 1 0)) ∷ [] }

abbrev outputs_or : Option (List OutputElement) → List OutputElement
outputs_or none = []
outputs_or (some outputs) = outputs

abbrev outputs : List OutputElement
outputs = outputs_or (created_in_block toy rich spending)

created : created_in_block toy rich spending ≡ some outputs
unfolding created_in_block sunyata.Consensus.State.block_reward sunyata.Currency.mul_64
created = refl

abbrev no_update : ApplyUpdate
no_update = record {
  elements = record { updated = λ h. []; tree_growth = λ h. [] };
  history = record { proof = []; growth = [] };
  state = rich;
  spent_outputs = [];
  new_output_elements = [];
}

abbrev pub update_or : Option ApplyUpdate → ApplyUpdate
update_or none = no_update
update_or (some au) = au

abbrev pub au : ApplyUpdate
au = update_or (apply_block toy rich spending)

pub applied : apply_block toy rich spending ≡ some au
unfolding apply_block created_in_block sunyata.Consensus.State.block_reward sunyata.Currency.mul_64
    sunyata.Merkle.Elements.apply_block sunyata.Merkle.Update.update_leaves
    sunyata.Merkle.Update.group_trees sunyata.Merkle.Update.sort_leaves updated_in_block
    sunyata.Consensus.Update.updated_inputs sunyata.Merkle.Update.insert_leaf output_leaf path
    sunyata.Merkle.Update.same_length sunyata.Merkle.Update.update_trees
    sunyata.Merkle.Update.update_tree sunyata.Merkle.Update.recompute sunyata.Common.bytes_eq
    sunyata.Consensus.Apply.created_leaves sunyata.Consensus.Apply.ephemeral_inputs
    sunyata.Consensus.Apply.ephemeral_spent sunyata.Consensus.Apply.is_spent_id
    sunyata.Consensus.Apply.place_outputs sunyata.Consensus.Header.adjust_difficulty
    sunyata.Consensus.Header.apply_header sunyata.Consensus.Header.clamped_delta
    sunyata.Consensus.Header.push_timestamp sunyata.Consensus.Header.retarget
    sunyata.Consensus.Header.set_time sunyata.Consensus.State.maturity_height
    sunyata.Consensus.State.num_timestamps sunyata.Consensus.State.shift_right
    sunyata.Consensus.Update.created_by_all sunyata.Consensus.Update.created_outputs
    sunyata.Encoding.encode_all sunyata.Encoding.encode_currency sunyata.Encoding.encode_element_id
    sunyata.Encoding.encode_output sunyata.Encoding.little_endian sunyata.Encoding.unix
    sunyata.Encoding.write_bytes sunyata.Encoding.write_prefix sunyata.Encoding.write_string
    sunyata.Encoding.write_uint64 block_index header_id header_index miner_output_id parent_index
    sunyata.Identity.semantic_bytes transaction_id sunyata.Merkle.Accumulator.add_all
    sunyata.Merkle.Accumulator.add_leaf sunyata.Merkle.Accumulator.add_leaves
    sunyata.Merkle.Accumulator.extend_proofs sunyata.Merkle.Accumulator.grow
    sunyata.Merkle.Accumulator.walk sunyata.Merkle.Bits.clear_bits node
    sunyata.Merkle.Hash.history_leaf_hash leaf_hash sunyata.Merkle.Hash.node_hash
    sunyata.Merkle.History.apply_block sunyata.Merkle.History.merge
    sunyata.Merkle.Update.first_proof sunyata.Merkle.Update.half sunyata.Merkle.Update.set_proofs
    sunyata.Merkle.Update.split_leaves sunyata.Types.chain_index_eq sunyata.Types.element_id_eq
    sunyata.Work.add sunyata.Work.div_64 sunyata.Work.mul_64 sunyata.Work.mul_step
applied = refl

abbrev spent : List ElementLeaf
spent = map (λ p. p.1) (updated_in_block toy true spending.transactions)

apply_transaction_proofs-Present_example :
    (txn' : Transaction) × (apply_transaction_proofs toy au (spend (element 1 (path toy leaf 1 1)))
      ≡ some txn')
    × (txn' ≡ record (spend (element 1 (path toy leaf 1 1))) { inputs = txn'.inputs })
    × Pairs Refreshed (spend (element 1 (path toy leaf 1 1))).inputs txn'.inputs
    × All (Present toy au.state.elements) txn'.inputs
unfolding updated_in_block sunyata.Consensus.Update.updated_inputs output_leaf path leaf_hash
    sunyata.Encoding.write_uint64 sunyata.Encoding.little_endian sunyata.Encoding.write_string
    sunyata.Encoding.write_bytes sunyata.Encoding.write_prefix created_in_block
    sunyata.Consensus.Apply.created_leaves sunyata.Consensus.State.block_reward
    sunyata.Currency.mul_64 sunyata.Consensus.Update.created_by_all
    sunyata.Consensus.Update.created_outputs
apply_transaction_proofs-Present_example =
    apply_transaction_proofs-Present toy rich spending au outputs created applied leaf leaf
      three-Represents (omega arith) (omega arith) (tt, tt)
      ((1, record { present = refl; inside = refl }, refl), tt) (refl, tt) (λ m lt. inl refl)
      (refl, (refl, tt)) (spend (element 1 (path toy leaf 1 1)))
      (inr ((1, record { present = refl; inside = refl }, refl), refl), tt)
