-- ===== src/Consensus/Validation.antt =====
-- consensus/validation.go.
pub mod Value
pub mod Rules
use sunyata.Common.{
  ℕ, zero, suc, ◌+◌, ◌-◌, ◌*◌, ◌/◌, ◌%◌, ◌^◌, min, Bool, true, false, not, ◌&&◌, ◌||◌, Option, none,
  some, List, [], ◌∷◌, ◌++◌, length, get_elem?, take, ltb, leb, ◌==◌, bytes_eq, if◌then◌else◌,
}
use sunyata.Common.Outcome.{Outcome, ok, err, panic, ◌>>=◌, ◌>>◌, fail_if}
use sunyata.Common.Word.{add_u64}
use sunyata.Currency.{Currency, zero_currency, add_with_overflow, add, is_zero, equals, less}
use sunyata.Work.{Work, work_required_for_hash}
use sunyata.Work
use sunyata.Types.{
  Crypto, Hash256, ElementId, Time, Output, Input, Transaction, BlockHeader, Block,
  ephemeral_leaf_index, element_id_eq,
}
use sunyata.Identity.{address, header_id, transaction_id}
use sunyata.Merkle.Accumulator.{contains_unspent, contains_spent}
use sunyata.Consensus.Errors.{
  Error, Result, wrong_height, wrong_parent_id, insufficient_work, timestamp_too_old, zero_value,
  overflow, immature, unequal, proof_double_spends, not_present, incorrect_pubkey,
  invalid_signature, overweight, ephemeral_missing, ephemeral_value, ephemeral_address,
  double_spends, commitment_mismatch,
}
use sunyata.Consensus.State.{
  State, num_timestamps, block_weight, max_block_weight, commitment, input_sig_hash,
}

-- `in.Parent.LeafIndex == sunyata.EphemeralLeafIndex`
abbrev pub is_ephemeral : Input → Bool
is_ephemeral in' = in'.parent.leaf_index == ephemeral_leaf_index

-- `sort.Slice` of timestamps.
pub insert_time : Time → List Time → List Time
insert_time t [] = t ∷ []
insert_time t (u ∷ us) = if leb t u then t ∷ u ∷ us else u ∷ insert_time t us

pub sort_times : List Time → List Time
unfolding insert_time
sort_times [] = []
sort_times (t ∷ ts) = insert_time t (sort_times ts)

-- `ts[i]`, for an index in range.
time_at : List Time → ℕ → Result Time
time_at ts i = elim (get_elem? ts i) [ none ↦ panic | some t ↦ ok t ]

-- medianTimestamp; a Duration saturates at 2^63 - 1 nanoseconds.
unfoldable pub median_timestamp : State → Result Time
unfolding sort_times time_at
median_timestamp s =
    let ts = sort_times (take (num_timestamps s) s.prev_timestamps) in
    if not (length ts % 2 == 0) then time_at ts (length ts / 2) else do
      l ← time_at ts (length ts / 2 - 1)
      r ← time_at ts (length ts / 2)
      ok (l + min (r - l) (2 ^ 63 - 1) / 2)

-- `sunyata.WorkRequiredForHash(id).Cmp(d) < 0`
unfoldable pub insufficient : Hash256 → Work → Result Bool
insufficient id d = elim (work_required_for_hash id) [
  | none ↦ panic
  | some w ↦ ok (elim (Work.cmp w d) [ less ↦ true | _ ↦ false ])
]

-- The closure `add` of validateCurrencyValues, on `sum` and `overflowed`.
unfoldable pub add_value : Currency × Bool → Currency → Currency × Bool
add_value (sum, true) x = (sum, true)
add_value (sum, false) x = add_with_overflow sum x

unfoldable pub add_inputs : Currency × Bool → List Input → Currency × Bool
add_inputs acc [] = acc
add_inputs acc (in' ∷ ins) = add_inputs (add_value acc in'.parent.value) ins

unfoldable pub add_outputs : Currency × Bool → List Output → Result (Currency × Bool)
add_outputs acc [] = ok acc
add_outputs acc (out ∷ outs) =
    let rest = add_outputs (add_value acc out.value) outs in
    if is_zero out.value then err zero_value else rest

-- validateCurrencyValues
unfoldable pub validate_currency_values : Transaction → Result (Unit {0})
validate_currency_values txn = do
  acc ← add_outputs (add_inputs (zero_currency, false) txn.inputs) txn.outputs
  fail_if (add_value acc txn.miner_fee).1 overflow

-- validateTimeLocks
unfoldable pub validate_time_locks : ℕ → List Input → Result (Unit {0})
validate_time_locks block_height [] = ok tt
validate_time_locks block_height (in' ∷ ins) =
    let rest = validate_time_locks block_height ins in
    if ltb block_height in'.parent.maturity_height then err immature else rest

-- `total = total.Add(x)`
abbrev pub add_or_panic : Currency → Currency → Result Currency
add_or_panic total x = elim (add total x) [ none ↦ panic | some s ↦ ok s ]

unfoldable pub total_inputs : Currency → List Input → Result Currency
total_inputs total [] = ok total
total_inputs total (in' ∷ ins) =
    add_or_panic total in'.parent.value >>= λ total'. total_inputs total' ins

unfoldable pub total_outputs : Currency → List Output → Result Currency
total_outputs total [] = ok total
total_outputs total (out ∷ outs) =
    add_or_panic total out.value >>= λ total'. total_outputs total' outs

-- outputsEqualInputs
unfoldable pub outputs_equal_inputs : Transaction → Result (Unit {0})
outputs_equal_inputs txn = do
  total_in ← total_inputs zero_currency txn.inputs
  total_out ← total_outputs zero_currency txn.outputs
  total_out' ← add_or_panic total_out txn.miner_fee
  fail_if (not (equals total_in total_out')) unequal

module _ (crypto : Crypto) where
  -- validateHeader
  unfoldable pub validate_header : State → BlockHeader → Result (Unit {0})
  unfolding insufficient
  validate_header s h = do
    fail_if (not (h.height == add_u64 s.index.height 1)) wrong_height
    fail_if (not (bytes_eq h.parent_id s.index.id)) wrong_parent_id
    weak ← insufficient (header_id crypto h) s.difficulty
    fail_if weak insufficient_work
    median ← median_timestamp s
    fail_if (ltb h.timestamp median) timestamp_too_old

  -- validateStateProofs
  unfoldable pub validate_state_proofs : State → List Input → Result (Unit {0})
  validate_state_proofs s [] = ok tt
  validate_state_proofs s (in' ∷ ins) =
      let rest = validate_state_proofs s ins in
      if is_ephemeral in'
      then rest
      else if contains_unspent crypto s.elements in'.parent
      then rest
      else if contains_spent crypto s.elements in'.parent
      then err proof_double_spends
      else err not_present

  -- The loop of validateSpendPolicies.
  unfoldable pub check_inputs : Hash256 → List Input → Result (Unit {0})
  check_inputs sig_hash [] = ok tt
  check_inputs sig_hash (in' ∷ ins) =
      let rest = check_inputs sig_hash ins in
      if not (bytes_eq (address crypto in'.public_key) in'.parent.address)
      then err incorrect_pubkey
      else if not (crypto.verify in'.public_key sig_hash in'.signature)
      then err invalid_signature
      else rest

  -- validateSpendPolicies
  unfoldable pub validate_spend_policies : Transaction → Result (Unit {0})
  validate_spend_policies txn = check_inputs (input_sig_hash crypto txn) txn.inputs

  -- ValidateTransaction
  unfoldable pub validate_transaction : State → Transaction → Result (Unit {0})
  validate_transaction s txn = do
    validate_state_proofs s txn.inputs
    validate_currency_values txn
    validate_time_locks (add_u64 s.index.height 1) txn.inputs
    outputs_equal_inputs txn
    validate_spend_policies txn
