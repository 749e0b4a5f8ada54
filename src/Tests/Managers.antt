-- ===== src/Tests/Managers.antt =====
-- A store with two blocks on one parent, and a manager at the first of them.
use sunyata.Common.{
  ◌≡◌, ◌++◌, refl, sym, ap, true, false, none, some, Option, List, [], ◌∷◌, All, if◌then◌else◌,
  take, ◌==◌, ℕ,
}
use sunyata.Common.Outcome.{Outcome, ok, err}
use sunyata.Types.{Crypto, ChainIndex, BlockHeader, Block, chain_index_eq}
use sunyata.Identity.{parent_index, header_index, header_id}
use sunyata.Merkle.Accumulator.{Accumulator}
use sunyata.Consensus.State.{State, Checkpoint}
use sunyata.Consensus.Scratch.{ScratchChain, valid_tip, tip, index_at}
use sunyata.Consensus.Apply.{ApplyUpdate, RevertUpdate, apply_block, revert_block}
use sunyata.Chain.{StoreError, unknown_index, other_failure, ManagerStore}
use sunyata.Chain.Manager.{Subscriber, Manager, in_best, reorg_to}
use sunyata.Chain.Manager.Tip.{Working}
use sunyata.Chain.Manager.Route.{rest_of, reorg_to-extended}
use sunyata.Tests.Data.{header, state}
use sunyata.Tests.Applied.{update_or}

-- Hashes that keep the nonce of a header.
abbrev nonced : Crypto
nonced = record { sum512_256 = λ bytes. take 17 bytes; verify = λ key hash signature. true }

abbrev empty : Accumulator
empty = record { trees = λ h. []; num_leaves = 0 }

abbrev root_header : BlockHeader
root_header = record header { height = 0; nonce = 0 }

abbrev root_index : ChainIndex
root_index = header_index nonced root_header

abbrev root_state : State
root_state = record state { index = root_index; elements = empty; history = empty }

abbrev child : ℕ → Block
child nonce = record {
  header = record header { nonce = nonce; parent_id = root_index.id };
  transactions = [];
}

abbrev index_of : ℕ → ChainIndex
index_of nonce = header_index nonced (child nonce).header

abbrev checkpoint_of : ℕ → Checkpoint
checkpoint_of nonce = record {
  block = child nonce;
  state = record root_state { index = index_of nonce };
}

abbrev root : Checkpoint
root = record { block = record { header = root_header; transactions = [] }; state = root_state }

abbrev lookup : ChainIndex → Outcome StoreError Checkpoint
lookup i =
    if chain_index_eq root_index i
    then ok root
    else if chain_index_eq (index_of 1) i
    then ok (checkpoint_of 1)
    else if chain_index_eq (index_of 2) i
    then ok (checkpoint_of 2)
    else err unknown_index

abbrev at_height : ℕ → List ChainIndex → Outcome StoreError ChainIndex
at_height height [] = err unknown_index
at_height height (i ∷ is) = if i.height == height then ok i else at_height height is

abbrev rewound : List ChainIndex → Outcome StoreError (List ChainIndex)
rewound [] = err other_failure
rewound (x ∷ []) = err other_failure
rewound (x ∷ y ∷ rest) = ok (y ∷ rest)

abbrev ops : ManagerStore (List ChainIndex)
ops = record {
  add_checkpoint = λ c st. ok st;
  checkpoint = λ i st. lookup i;
  header = λ i st. ok root_header;
  extend_best = λ i st. ok (i ∷ st);
  rewind_best = λ st. rewound st;
  best_index = λ height st. at_height height st;
  flush = λ st. ok st;
}

abbrev follower : Subscriber (List ChainIndex)
follower = record {
  process_apply = λ u b c s. (u.state.index ∷ s, true);
  process_revert = λ u b s. (rest_of s, true);
}

rewinds :
    (st : List ChainIndex) (x y : ChainIndex) (rest : List ChainIndex)
    → st ≡ x ∷ y ∷ rest
    → (st' : List ChainIndex) × (rewound st ≡ ok st')
      × (st' ≡ y ∷ rest)
      × ((j : ChainIndex) → lookup j ≡ lookup j)
rewinds [] x y rest e = absurd (cc e)
rewinds (a ∷ []) x y rest e = absurd (cc (ap rest_of e))
rewinds (a ∷ b ∷ r) x y rest e = (b ∷ r, refl, ap rest_of e, λ j. refl)

ops-Working : Working ops follower (λ st. st) (λ s. s)
ops-Working = record {
  extends = λ st i c e. (i ∷ st, refl, refl, λ j. refl);
  rewinds = rewinds;
  flushes = λ st. (st, refl, refl, λ j. refl);
  applies = λ u b c s. (u.state.index ∷ s, refl, refl);
  reverts = λ u b s x y rest e. (rest_of s, refl, ap rest_of e);
}

abbrev no_revert : RevertUpdate
no_revert = record {
  elements = record { updated = λ h. []; num_leaves = 0 };
  history = root_index;
  state = root_state;
  spent_outputs = [];
  new_output_elements = [];
}

abbrev revert_or : Option RevertUpdate → RevertUpdate
revert_or none = no_revert
revert_or (some ru) = ru

abbrev au : ApplyUpdate
au = update_or (apply_block nonced root_state (child 2))

abbrev ru : RevertUpdate
ru = revert_or (revert_block nonced root_state (child 1))

applied : apply_block nonced root_state (child 2) ≡ some au
unfolding sunyata.Consensus.Apply.apply_block sunyata.Consensus.Update.created_in_block
    sunyata.Consensus.State.block_reward sunyata.Currency.mul_64 sunyata.Merkle.Elements.apply_block
    sunyata.Merkle.Update.update_leaves sunyata.Merkle.Update.group_trees
    sunyata.Merkle.Update.sort_leaves sunyata.Consensus.Update.updated_in_block
    sunyata.Consensus.Update.updated_inputs sunyata.Merkle.Update.insert_leaf
    sunyata.Merkle.Hash.output_leaf sunyata.Merkle.Forest.path sunyata.Merkle.Update.same_length
    sunyata.Merkle.Update.update_trees sunyata.Merkle.Update.update_tree
    sunyata.Merkle.Update.recompute sunyata.Common.bytes_eq sunyata.Consensus.Apply.created_leaves
    sunyata.Consensus.Apply.ephemeral_inputs sunyata.Consensus.Apply.ephemeral_spent
    sunyata.Consensus.Apply.is_spent_id sunyata.Consensus.Apply.place_outputs
    sunyata.Consensus.Header.adjust_difficulty sunyata.Consensus.Header.apply_header
    sunyata.Consensus.Header.clamped_delta sunyata.Consensus.Header.push_timestamp
    sunyata.Consensus.Header.retarget sunyata.Consensus.Header.set_time
    sunyata.Consensus.State.maturity_height sunyata.Consensus.State.num_timestamps
    sunyata.Consensus.State.shift_right sunyata.Consensus.Update.created_by_all
    sunyata.Consensus.Update.created_outputs sunyata.Encoding.encode_all
    sunyata.Encoding.encode_currency sunyata.Encoding.encode_element_id
    sunyata.Encoding.encode_output sunyata.Encoding.little_endian sunyata.Encoding.unix
    sunyata.Encoding.write_bytes sunyata.Encoding.write_prefix sunyata.Encoding.write_string
    sunyata.Encoding.write_uint64 sunyata.Identity.block_index sunyata.Identity.header_id
    sunyata.Identity.header_index sunyata.Identity.miner_output_id sunyata.Identity.parent_index
    sunyata.Identity.semantic_bytes sunyata.Identity.transaction_id
    sunyata.Merkle.Accumulator.add_all sunyata.Merkle.Accumulator.add_leaf
    sunyata.Merkle.Accumulator.add_leaves sunyata.Merkle.Accumulator.extend_proofs
    sunyata.Merkle.Accumulator.grow sunyata.Merkle.Accumulator.walk sunyata.Merkle.Bits.clear_bits
    sunyata.Merkle.Forest.node sunyata.Merkle.Hash.history_leaf_hash sunyata.Merkle.Hash.leaf_hash
    sunyata.Merkle.Hash.node_hash sunyata.Merkle.History.apply_block sunyata.Merkle.History.merge
    sunyata.Merkle.Update.first_proof sunyata.Merkle.Update.half sunyata.Merkle.Update.set_proofs
    sunyata.Merkle.Update.split_leaves sunyata.Types.chain_index_eq sunyata.Types.element_id_eq
    sunyata.Work.add sunyata.Work.div_64 sunyata.Work.mul_64 sunyata.Work.mul_step
    sunyata.Consensus.Apply.revert_block sunyata.Merkle.Elements.revert_block
    sunyata.Merkle.Elements.collect
applied = refl

reverted : revert_block nonced root_state (child 1) ≡ some ru
unfolding revert_block sunyata.Consensus.Update.created_in_block
    sunyata.Consensus.State.block_reward sunyata.Currency.mul_64
    sunyata.Consensus.Update.updated_in_block sunyata.Merkle.Elements.revert_block
    sunyata.Merkle.Elements.collect chain_index_eq sunyata.Common.bytes_eq parent_index header_index
    header_id valid_tip sunyata.Encoding.write_uint64 sunyata.Encoding.little_endian
    sunyata.Encoding.unix
reverted = refl

au-index : au.state.index ≡ index_of 2
unfolding sunyata.Consensus.Apply.apply_block sunyata.Consensus.Update.created_in_block
    sunyata.Consensus.State.block_reward sunyata.Currency.mul_64 sunyata.Merkle.Elements.apply_block
    sunyata.Merkle.Update.update_leaves sunyata.Merkle.Update.group_trees
    sunyata.Merkle.Update.sort_leaves sunyata.Consensus.Update.updated_in_block
    sunyata.Consensus.Update.updated_inputs sunyata.Merkle.Update.insert_leaf
    sunyata.Merkle.Hash.output_leaf sunyata.Merkle.Forest.path sunyata.Merkle.Update.same_length
    sunyata.Merkle.Update.update_trees sunyata.Merkle.Update.update_tree
    sunyata.Merkle.Update.recompute sunyata.Common.bytes_eq sunyata.Consensus.Apply.created_leaves
    sunyata.Consensus.Apply.ephemeral_inputs sunyata.Consensus.Apply.ephemeral_spent
    sunyata.Consensus.Apply.is_spent_id sunyata.Consensus.Apply.place_outputs
    sunyata.Consensus.Header.adjust_difficulty sunyata.Consensus.Header.apply_header
    sunyata.Consensus.Header.clamped_delta sunyata.Consensus.Header.push_timestamp
    sunyata.Consensus.Header.retarget sunyata.Consensus.Header.set_time
    sunyata.Consensus.State.maturity_height sunyata.Consensus.State.num_timestamps
    sunyata.Consensus.State.shift_right sunyata.Consensus.Update.created_by_all
    sunyata.Consensus.Update.created_outputs sunyata.Encoding.encode_all
    sunyata.Encoding.encode_currency sunyata.Encoding.encode_element_id
    sunyata.Encoding.encode_output sunyata.Encoding.little_endian sunyata.Encoding.unix
    sunyata.Encoding.write_bytes sunyata.Encoding.write_prefix sunyata.Encoding.write_string
    sunyata.Encoding.write_uint64 sunyata.Identity.block_index sunyata.Identity.header_id
    sunyata.Identity.header_index sunyata.Identity.miner_output_id sunyata.Identity.parent_index
    sunyata.Identity.semantic_bytes sunyata.Identity.transaction_id
    sunyata.Merkle.Accumulator.add_all sunyata.Merkle.Accumulator.add_leaf
    sunyata.Merkle.Accumulator.add_leaves sunyata.Merkle.Accumulator.extend_proofs
    sunyata.Merkle.Accumulator.grow sunyata.Merkle.Accumulator.walk sunyata.Merkle.Bits.clear_bits
    sunyata.Merkle.Forest.node sunyata.Merkle.Hash.history_leaf_hash sunyata.Merkle.Hash.leaf_hash
    sunyata.Merkle.Hash.node_hash sunyata.Merkle.History.apply_block sunyata.Merkle.History.merge
    sunyata.Merkle.Update.first_proof sunyata.Merkle.Update.half sunyata.Merkle.Update.set_proofs
    sunyata.Merkle.Update.split_leaves sunyata.Types.chain_index_eq sunyata.Types.element_id_eq
    sunyata.Work.add sunyata.Work.div_64 sunyata.Work.mul_64 sunyata.Work.mul_step
    sunyata.Consensus.Apply.revert_block sunyata.Merkle.Elements.revert_block
    sunyata.Merkle.Elements.collect
au-index = refl

abbrev manager : Manager (List ChainIndex) (List ChainIndex)
manager = record {
  store = index_of 1 ∷ root_index ∷ [];
  cs = (checkpoint_of 1).state;
  chains = [];
  subscribers = (index_of 1 ∷ root_index ∷ []) ∷ [];
  last_flush = 0;
}

abbrev other : ScratchChain
other = record {
  base = root_index;
  headers = (child 2).header ∷ [];
  hs = (checkpoint_of 2).state;
  ts = (checkpoint_of 2).state;
}

chain_end : chain_index_eq au.state.index (valid_tip other) ≡ true
unfolding chain_index_eq sunyata.Common.bytes_eq parent_index header_index header_id valid_tip
    sunyata.Encoding.write_uint64 sunyata.Encoding.little_endian sunyata.Encoding.unix
chain_end = ap (λ i. chain_index_eq i (valid_tip other)) au-index

reorg_to-extended_example :
    (m' : Manager (List ChainIndex) (List ChainIndex)) × (reorg_to nonced ops follower 0 other
        manager
      ≡ (m', ok tt))
    × (m'.cs ≡ au.state)
    × (m'.cs.index ≡ valid_tip other)
    × (m'.store ≡ index_of 2 ∷ root_index ∷ [])
    × All (λ v. v ≡ m'.store) m'.subscribers
unfolding chain_index_eq sunyata.Common.bytes_eq parent_index header_index header_id in_best
    valid_tip tip index_at sunyata.Encoding.write_uint64 sunyata.Encoding.little_endian
    sunyata.Encoding.unix
reorg_to-extended_example =
    reorg_to-extended nonced ops follower (λ st. st) (λ s. s) ops-Working 0 other manager
      root_header root_header [] (index_of 1 ∷ []) [] (index_of 2 ∷ []) root_state au.state refl
      refl (refl, refl) refl (refl, tt)
      (refl, checkpoint_of 1, root, ru, refl, refl, reverted, refl, (refl, refl))
      (
        refl,
        refl,
        checkpoint_of 2,
        au,
        refl,
        refl,
        refl,
        applied,
        au-index,
        refl,
        (chain_end, refl),
      )
