-- ===== src/Tests/Pools.antt =====
-- A pool with a transaction that the next block leaves unspent.
use sunyata.Common.{◌≡◌, refl, arith, true, false, Option, none, some, List, [], ◌∷◌, All}
use sunyata.Types.{Hash256, Transaction, Block}
use sunyata.Identity.{transaction_id}
use sunyata.Merkle.Forest.{path}
use sunyata.Consensus.Apply.{ApplyUpdate}
use sunyata.TxPool.{Pool, new_pool, put_txn, process_apply, add_transaction_set}
use sunyata.TxPool.Valid.{Absent, ValidIn, process_apply-ValidIn, add_transaction_set-ValidIn}
use sunyata.Tests.Data.{toy, state, transactions}
use sunyata.Tests.Applied.{leaf, rich, element, spend, spending, au}

abbrev waiting : Transaction
waiting = spend (element 1 (path toy leaf 1 1))

abbrev pool : Pool
pool = record (new_pool au rich) { txns = put_txn [] (5 ∷ []) waiting }

abbrev pool_or : Option Pool → Pool
pool_or none = pool
pool_or (some p) = p

abbrev pool' : Pool
pool' = pool_or (process_apply toy au spending pool)

processed : process_apply toy au spending pool ≡ some pool'
unfolding sunyata.Consensus.Apply.apply_block sunyata.Consensus.Update.created_in_block
    sunyata.Consensus.State.block_reward sunyata.Currency.mul_64 sunyata.Merkle.Elements.apply_block
    sunyata.Merkle.Update.update_leaves sunyata.Merkle.Update.group_trees
    sunyata.Merkle.Update.sort_leaves sunyata.Consensus.Update.updated_in_block
    sunyata.Consensus.Update.updated_inputs sunyata.Merkle.Update.insert_leaf
    sunyata.Merkle.Hash.output_leaf path sunyata.Merkle.Update.same_length
    sunyata.Merkle.Update.update_trees sunyata.Merkle.Update.update_tree
    sunyata.Merkle.Update.recompute sunyata.Common.bytes_eq sunyata.Consensus.Apply.created_leaves
    sunyata.Consensus.Apply.ephemeral_inputs sunyata.Consensus.Apply.ephemeral_spent
    sunyata.Consensus.Apply.is_spent_id sunyata.Consensus.Apply.place_outputs
    sunyata.Consensus.Header.adjust_difficulty sunyata.Consensus.Header.apply_header
    sunyata.Consensus.Header.clamped_delta sunyata.Consensus.Header.push_timestamp
    sunyata.Consensus.Header.retarget sunyata.Consensus.Header.set_time
    sunyata.Consensus.State.maturity_height sunyata.Consensus.State.num_timestamps
    sunyata.Consensus.State.shift_right sunyata.Consensus.Update.created_by_all
    sunyata.Consensus.Update.created_outputs sunyata.Encoding.encode_all
    sunyata.Encoding.encode_currency sunyata.Encoding.encode_element_id
    sunyata.Encoding.encode_output sunyata.Encoding.little_endian sunyata.Encoding.unix
    sunyata.Encoding.write_bytes sunyata.Encoding.write_prefix sunyata.Encoding.write_string
    sunyata.Encoding.write_uint64 sunyata.Identity.block_index sunyata.Identity.header_id
    sunyata.Identity.header_index sunyata.Identity.miner_output_id sunyata.Identity.parent_index
    sunyata.Identity.semantic_bytes transaction_id sunyata.Merkle.Accumulator.add_all
    sunyata.Merkle.Accumulator.add_leaf sunyata.Merkle.Accumulator.add_leaves
    sunyata.Merkle.Accumulator.extend_proofs sunyata.Merkle.Accumulator.grow
    sunyata.Merkle.Accumulator.walk sunyata.Merkle.Bits.clear_bits sunyata.Merkle.Forest.node
    sunyata.Merkle.Hash.history_leaf_hash sunyata.Merkle.Hash.leaf_hash
    sunyata.Merkle.Hash.node_hash sunyata.Merkle.History.apply_block sunyata.Merkle.History.merge
    sunyata.Merkle.Update.first_proof sunyata.Merkle.Update.half sunyata.Merkle.Update.set_proofs
    sunyata.Merkle.Update.split_leaves sunyata.Types.chain_index_eq sunyata.Types.element_id_eq
    sunyata.Work.add sunyata.Work.div_64 sunyata.Work.mul_64 sunyata.Work.mul_step process_apply
    sunyata.TxPool.apply_each sunyata.TxPool.delete_confirmed sunyata.TxPool.delete_txn
    sunyata.Consensus.Apply.apply_transaction_proofs sunyata.Consensus.Apply.update_inputs
    sunyata.Merkle.Elements.apply_element_proof sunyata.Merkle.Elements.update_proof
    sunyata.Merkle.Elements.closest sunyata.Merkle.Bits.merge_height sunyata.Common.Word.len64
    sunyata.Common.Word.bit_length sunyata.Common.Word.xor_u64 sunyata.Common.Word.xor_bits
    sunyata.Merkle.Hash.proof_root sunyata.Merkle.Hash.proof_root_from
processed = refl

process_apply-ValidIn_example :
    (pool'.cs ≡ au.state)
    × (pool'.prev_cs ≡ rich)
    × ValidIn toy pool'.cs pool'.txns
    × All (λ txn. Absent (transaction_id toy txn) pool'.txns) spending.transactions
process_apply-ValidIn_example = process_apply-ValidIn toy au spending pool pool' processed

add_transaction_set-ValidIn_example :
    let (p', result) = add_transaction_set toy (new_pool au state) transactions in
    (p'.cs ≡ state) × ValidIn toy p'.cs p'.txns
add_transaction_set-ValidIn_example =
    add_transaction_set-ValidIn toy (new_pool au state) transactions tt
