-- ===== src/Consensus/Blocks.antt =====
-- consensus/validation.go: sets of transactions and blocks. The map of unspent ephemeral outputs is
-- an association list; of the map of spent IDs only the keys decide anything.
pub mod DoubleSpends
pub mod Ephemeral
pub mod Accepted
use sunyata.Common.{
  ℕ, ◌+◌, Bool, true, false, not, ◌||◌, Option, none, some, List, [], ◌∷◌, ltb, bytes_eq,
  if◌then◌else◌,
}
use sunyata.Common.Outcome.{Outcome, ok, err, panic, ◌>>=◌, ◌>>◌, fail_if}
use sunyata.Common.Word.{add_u64}
use sunyata.Currency.{equals}
use sunyata.Types.{Crypto, Hash256, ElementId, Output, Input, Transaction, Block, element_id_eq}
use sunyata.Identity.{transaction_id}
use sunyata.Consensus.Errors.{
  Error, Result, overweight, ephemeral_missing, ephemeral_value, ephemeral_address, double_spends,
  commitment_mismatch,
}
use sunyata.Consensus.State.{State, block_weight, max_block_weight, commitment}
use sunyata.Consensus.Validation.{is_ephemeral, validate_header, validate_transaction}

abbrev pub Available : Type 0
Available = List (ElementId × Output)

-- `available[id]`, `delete(available, id)` and `available[id] = out`.
unfoldable pub available_get : ElementId → Available → Option Output
available_get id [] = none
available_get id ((k, out) ∷ m) = if element_id_eq k id then some out else available_get id m

unfoldable pub available_delete : ElementId → Available → Available
available_delete id [] = []
available_delete id ((k, out) ∷ m) =
    let rest = available_delete id m in if element_id_eq k id then rest else (k, out) ∷ rest

unfoldable pub available_put : ElementId → Output → Available → Available
available_put id out m = (id, out) ∷ available_delete id m

-- The search that decides whether validateEphemeralOutputs has anything to do.
unfoldable pub any_ephemeral_input : List Input → Bool
any_ephemeral_input [] = false
any_ephemeral_input (in' ∷ ins) = is_ephemeral in' || any_ephemeral_input ins

unfoldable pub any_ephemeral : List Transaction → Bool
any_ephemeral [] = false
any_ephemeral (txn ∷ txns) = any_ephemeral_input txn.inputs || any_ephemeral txns

-- The claim of one ephemeral input on the output that it names.
unfoldable pub claim : Available → Input → Result Available
claim available in' = elim (available_get in'.parent.id available) [
  | none ↦ err ephemeral_missing
  | some out ↦
      if not (equals in'.parent.value out.value)
      then err ephemeral_value
      else if not (bytes_eq in'.parent.address out.address)
      then err ephemeral_address
      else ok (available_delete in'.parent.id available)
]

unfoldable pub claim_inputs : Available → List Input → Result Available
claim_inputs available [] = ok available
claim_inputs available (in' ∷ ins) =
    (if is_ephemeral in' then claim available in' else ok available) >>= λ available'.
    claim_inputs available' ins

-- The outputs of a transaction become available, from `index` on.
unfoldable pub offer_outputs : Hash256 → ℕ → Available → List Output → Available
offer_outputs txid index available [] = available
offer_outputs txid index available (out ∷ outs) =
    offer_outputs txid (add_u64 index 1)
      (available_put (record { source = txid; index = index }) out available) outs

-- The inputs of one transaction against the IDs spent so far.
unfoldable pub is_spent : ElementId → List ElementId → Bool
is_spent id [] = false
is_spent id (k ∷ ks) = element_id_eq k id || is_spent id ks

unfoldable pub spend_inputs : List ElementId → List Input → Result (List ElementId)
spend_inputs spent [] = ok spent
spend_inputs spent (in' ∷ ins) =
    let rest = spend_inputs (in'.parent.id ∷ spent) ins in
    if is_spent in'.parent.id spent then err double_spends else rest

unfoldable pub spend_all : List ElementId → List Transaction → Result (List ElementId)
spend_all spent [] = ok spent
spend_all spent (txn ∷ txns) = spend_inputs spent txn.inputs >>= λ spent'. spend_all spent' txns

-- noDoubleSpends
unfoldable pub no_double_spends : List Transaction → Result (Unit {0})
no_double_spends txns = do spent ← spend_all [] txns; ok tt

module _ (crypto : Crypto) where
  unfoldable pub claim_all : Available → List Transaction → Result (Unit {0})
  claim_all available [] = ok tt
  claim_all available (txn ∷ txns) = claim_inputs available txn.inputs >>= λ available'.
      claim_all (offer_outputs (transaction_id crypto txn) 0 available' txn.outputs) txns

  -- validateEphemeralOutputs
  unfoldable pub validate_ephemeral_outputs : List Transaction → Result (Unit {0})
  validate_ephemeral_outputs txns = if any_ephemeral txns then claim_all [] txns else ok tt

  unfoldable pub validate_each : State → List Transaction → Result (Unit {0})
  validate_each s [] = ok tt
  validate_each s (txn ∷ txns) = validate_transaction crypto s txn >> validate_each s txns

  -- ValidateTransactionSet
  unfoldable pub validate_transaction_set : State → List Transaction → Result (Unit {0})
  validate_transaction_set s txns = do
    fail_if (ltb max_block_weight (block_weight txns)) overweight
    validate_ephemeral_outputs txns
    no_double_spends txns
    validate_each s txns

  -- ValidateBlock
  unfoldable pub validate_block : State → Block → Result (Unit {0})
  validate_block s b = do
    validate_header crypto s b.header
    fail_if
        (not (
          bytes_eq (commitment crypto s b.header.miner_address b.transactions) b.header.commitment))
        commitment_mismatch
    validate_transaction_set s b.transactions
