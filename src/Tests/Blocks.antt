-- ===== src/Tests/Blocks.antt =====
-- The block is accepted, and so are its transactions.
use sunyata.Common.{length, ◌≡◌, refl, ◌<◌, ◌^◌, ◌≢◌, ◌↔◌, All, [], ◌∷◌, arith}
use sunyata.Common.Outcome.{ok, panic}
use sunyata.Types.{Transaction}
use sunyata.Consensus.Validation.Rules.{IsAccepted, validate_transaction_iff}
use sunyata.Consensus.Blocks.DoubleSpends.{Distinct, parent_ids, all_inputs, no_double_spends_iff}
use sunyata.Consensus.Blocks.Ephemeral.{InOrder, validate_ephemeral_outputs-InOrder}
use sunyata.Consensus.Blocks.Accepted.{IsValid, validate_block-IsValid}
use sunyata.Consensus.Validation.Value.{HasCurrencies}
use sunyata.Consensus.Blocks.{validate_block}
use sunyata.Tests.Data.{toy, state, block, transactions, payment}
use sunyata.Consensus.Validation.{
  validate_header, add_inputs, add_outputs, add_value, check_inputs, insufficient, median_timestamp,
  outputs_equal_inputs, total_inputs, total_outputs, validate_currency_values,
  validate_spend_policies, validate_state_proofs, validate_time_locks, validate_transaction,
}
use sunyata.Common.{bytes_eq}
use sunyata.Work.{work_required_for_hash, big_endian, cmp, fill_bytes, from_number}
use sunyata.Identity.{header_id, address, semantic_bytes, transaction_id}
use sunyata.Encoding.{
  write_uint64, little_endian, write_string, write_bytes, write_prefix, encode_chain_index,
  encode_all, encode_currency, encode_element_id, encode_output, unix, write_time,
}
use sunyata.Consensus.State.{
  commitment, encode_state, encode_accumulator, encode_roots, block_weight, encode_work,
  input_sig_hash, num_timestamps, transaction_weight, weight_from,
}
use sunyata.Merkle.Hash.{
  leaf_hash, output_leaf, leaf_proof_root, node_hash, proof_root, proof_root_from,
}
use sunyata.Consensus.Blocks.{
  any_ephemeral, any_ephemeral_input, available_delete, available_get, available_put, claim,
  claim_all, claim_inputs, is_spent, no_double_spends, offer_outputs, spend_all, spend_inputs,
  validate_each, validate_ephemeral_outputs, validate_transaction_set,
}
use sunyata.Currency.{add, add_with_overflow, equals, is_zero}
use sunyata.Merkle.Accumulator.{contains_leaf, contains_spent, contains_unspent}
use sunyata.Types.{element_id_eq}

accepted : validate_block toy state block ≡ ok tt
unfolding validate_block validate_header add_inputs add_outputs add_value check_inputs insufficient
    median_timestamp outputs_equal_inputs total_inputs total_outputs validate_currency_values
    validate_spend_policies validate_state_proofs validate_time_locks validate_transaction bytes_eq
    work_required_for_hash big_endian cmp fill_bytes from_number header_id address semantic_bytes
    transaction_id write_uint64 little_endian write_string write_bytes write_prefix
    encode_chain_index encode_all encode_currency encode_element_id encode_output unix write_time
    commitment encode_state encode_accumulator encode_roots block_weight encode_work input_sig_hash
    num_timestamps transaction_weight weight_from leaf_hash output_leaf leaf_proof_root node_hash
    proof_root proof_root_from any_ephemeral any_ephemeral_input available_delete available_get
    available_put claim claim_all claim_inputs is_spent no_double_spends offer_outputs spend_all
    spend_inputs validate_each validate_ephemeral_outputs validate_transaction_set add
    add_with_overflow equals is_zero contains_leaf contains_spent contains_unspent element_id_eq
accepted = refl

payment-HasCurrencies : HasCurrencies payment
payment-HasCurrencies = omega arith

transactions-HasCurrencies : All HasCurrencies transactions
transactions-HasCurrencies = omega arith

few_outputs : All (λ (txn : Transaction). length txn.outputs < 2 ^ 64) transactions
few_outputs = omega arith

validate_block-IsValid_example : IsValid toy state block
validate_block-IsValid_example =
    validate_block-IsValid toy state block transactions-HasCurrencies few_outputs accepted

validate_transaction_iff_example :
    ((validate_transaction toy state payment ≡ ok tt) ↔ IsAccepted toy state payment)
    × (validate_transaction toy state payment ≢ panic)
validate_transaction_iff_example = validate_transaction_iff toy state payment payment-HasCurrencies

no_double_spends_iff_example :
    ((no_double_spends (payment ∷ payment ∷ []) ≡ ok tt)
      ↔ Distinct (parent_ids (all_inputs (payment ∷ payment ∷ []))))
    × (no_double_spends (payment ∷ payment ∷ []) ≢ panic)
no_double_spends_iff_example = no_double_spends_iff (payment ∷ payment ∷ [])

claimed : validate_ephemeral_outputs toy transactions ≡ ok tt
unfolding validate_block validate_header add_inputs add_outputs add_value check_inputs insufficient
    median_timestamp outputs_equal_inputs total_inputs total_outputs validate_currency_values
    validate_spend_policies validate_state_proofs validate_time_locks validate_transaction bytes_eq
    work_required_for_hash big_endian cmp fill_bytes from_number header_id address semantic_bytes
    transaction_id write_uint64 little_endian write_string write_bytes write_prefix
    encode_chain_index encode_all encode_currency encode_element_id encode_output unix write_time
    commitment encode_state encode_accumulator encode_roots block_weight encode_work input_sig_hash
    num_timestamps transaction_weight weight_from leaf_hash output_leaf leaf_proof_root node_hash
    proof_root proof_root_from any_ephemeral any_ephemeral_input available_delete available_get
    available_put claim claim_all claim_inputs is_spent no_double_spends offer_outputs spend_all
    spend_inputs validate_each validate_ephemeral_outputs validate_transaction_set add
    add_with_overflow equals is_zero contains_leaf contains_spent contains_unspent element_id_eq
claimed = refl

validate_ephemeral_outputs-InOrder_example : InOrder toy [] transactions
validate_ephemeral_outputs-InOrder_example =
    validate_ephemeral_outputs-InOrder toy transactions few_outputs claimed
