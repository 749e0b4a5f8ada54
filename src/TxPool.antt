-- ===== src/TxPool.antt =====
-- txpool/txpool.go. The map of transactions is a list of pairs of an identifier and a transaction;
-- no operation depends on its order. `none` and `panic` are panics.
pub mod Valid
use sunyata.Common.{
  ℕ, zero, suc, ◌==◌, not, ◌&&◌, ◌||◌, Bool, true, false, bytes_eq, Option, none, some, List, [],
  ◌∷◌, ◌++◌, if◌then◌else◌,
}
use sunyata.Common.Outcome.{Outcome, ok, err, panic}
use sunyata.Common.Word.{add_u64}
use sunyata.Types.{
  Crypto, Hash256, ElementId, StateElement, OutputElement, Output, Input, Transaction, Block,
  ephemeral_leaf_index, element_id_eq,
}
use sunyata.Identity.{transaction_id}
use sunyata.Merkle.Update.{◌>>=◌}
use sunyata.Consensus.Errors.{Error, Result}
use sunyata.Consensus.State.{State}
use sunyata.Consensus.Validation.{validate_transaction}
use sunyata.Consensus.Blocks.{validate_transaction_set}
use sunyata.Consensus.Apply.{
  ApplyUpdate, RevertUpdate, apply_transaction_proofs, revert_transaction_proofs,
  output_element_was_removed,
}

abbrev pub Transactions : Type 0
Transactions = List (Hash256 × Transaction)

pub record Pool : Type 0 where
  pub txns : Transactions
  pub cs : State
  pub prev_cs : State
  pub prev_update : ApplyUpdate

-- New; `nil` is the update that is not set yet.
abbrev pub new_pool : ApplyUpdate → State → Pool
new_pool nil cs = record { txns = []; cs = cs; prev_cs = cs; prev_update = nil }

-- The lookup in the map, `delete` and assignment.
unfoldable pub get_txn : Transactions → Hash256 → Option Transaction
get_txn [] id = none
get_txn ((id', txn) ∷ txns) id = if bytes_eq id' id then some txn else get_txn txns id

unfoldable pub delete_txn : Transactions → Hash256 → Transactions
delete_txn [] id = []
delete_txn ((id', txn) ∷ txns) id =
    let rest = delete_txn txns id in if bytes_eq id' id then rest else (id', txn) ∷ rest

abbrev pub put_txn : Transactions → Hash256 → Transaction → Transactions
put_txn txns id txn = (id, txn) ∷ delete_txn txns id

-- The element among the new ones that has the identifier.
unfoldable pub find_element : List OutputElement → ElementId → Option OutputElement
find_element [] id = none
find_element (oe ∷ oes) id = if element_id_eq oe.id id then some oe else find_element oes id

-- updateEphemeralInputs for an ApplyUpdate: an ephemeral output that has been mined becomes the
-- element itself.
unfoldable pub mine_inputs : List OutputElement → List Input → List Input
mine_inputs created [] = []
mine_inputs created (in' ∷ ins) =
    let rest = mine_inputs created ins in
    if in'.parent.leaf_index == ephemeral_leaf_index
    then elim (find_element created in'.parent.id) [
      | none ↦ in' ∷ rest
      | some oe ↦ record in' { parent = oe } ∷ rest
    ]
    else in' ∷ rest

-- updateEphemeralInputs for a RevertUpdate: an output of the block becomes ephemeral again.
unfoldable pub unmine_inputs : List OutputElement → List Input → List Input
unmine_inputs created [] = []
unmine_inputs created (in' ∷ ins) =
    let rest = unmine_inputs created ins in
    elim (find_element created in'.parent.id) [
      | none ↦ in' ∷ rest
      | some oe ↦
          record in' {
            parent = record in'.parent {
              state_element = record in'.parent.state_element {
                leaf_index = ephemeral_leaf_index;
                merkle_proof = [];
              };
            };
          }
          ∷ rest
    ]

-- txnContainsRevertedElements
unfoldable pub contains_reverted : RevertUpdate → List Input → Bool
contains_reverted ru [] = false
contains_reverted ru (in' ∷ ins) =
    output_element_was_removed ru in'.parent || contains_reverted ru ins

-- The identifiers of the outputs of a transaction, from `index` on, and of all in the pool.
unfoldable pub output_ids : Hash256 → ℕ → List Output → List ElementId
output_ids txid index [] = []
output_ids txid index (out ∷ outs) =
    record { source = txid; index = index } ∷ output_ids txid (add_u64 index 1) outs

unfoldable pub pool_outputs : Transactions → List ElementId
pool_outputs [] = []
pool_outputs ((txid, txn) ∷ txns) = output_ids txid 0 txn.outputs ++ pool_outputs txns

unfoldable pub has_output : List ElementId → ElementId → Bool
has_output [] id = false
has_output (i ∷ ids) id = element_id_eq i id || has_output ids id

unfoldable pub remove_output : List ElementId → ElementId → List ElementId
remove_output [] id = []
remove_output (i ∷ ids) id =
    let rest = remove_output ids id in if element_id_eq i id then rest else i ∷ rest

-- The loop over the inputs: each ephemeral one takes an output of the pool.
unfoldable pub claim_ephemeral : List ElementId → List Input → Bool
claim_ephemeral available [] = true
claim_ephemeral available (in' ∷ ins) =
    if in'.parent.leaf_index == ephemeral_leaf_index
    then has_output available in'.parent.id
      && claim_ephemeral (remove_output available in'.parent.id) ins
    else claim_ephemeral available ins

-- The errors of validation, and the unknown ephemeral output.
pub data PoolError : Type 0 where
  invalid : Error → PoolError
  unknown_ephemeral : PoolError

-- `err == nil`; a panic is passed on by the callers.
abbrev pub is_ok : {A : Type 0} → Result A → Bool
is_ok (ok a) = true
is_ok (err e) = false
is_ok panic = false

module _ (crypto : Crypto) where
  -- The first part of validateTransaction: a transaction whose proofs are one block behind gets new
  -- ones. The new proofs reach the caller, since its inputs are the same array.
  unfoldable pub refresh : Pool → Transaction → Outcome PoolError Transaction
  refresh p txn = elim (validate_transaction crypto p.cs txn) [
    | ok u ↦ ok txn
    | panic ↦ panic
    | err e ↦
        if is_ok (validate_transaction crypto p.prev_cs txn)
        then elim (apply_transaction_proofs crypto p.prev_update txn) [
          | none ↦ panic
          | some txn' ↦ elim (validate_transaction crypto p.cs txn') [
            | ok u ↦ ok txn'
            | panic ↦ panic
            | err e' ↦ err (invalid e')
          ]
        ]
        else err (invalid e)
  ]

  -- Pool.validateTransaction
  unfoldable pub validate_pool_transaction : Pool → Transaction → Outcome PoolError Transaction
  validate_pool_transaction p txn = elim (refresh p txn) [
    | ok txn' ↦
        if claim_ephemeral (pool_outputs p.txns) txn'.inputs then ok txn' else err unknown_ephemeral
    | err e ↦ err e
    | panic ↦ panic
  ]

  -- Pool.addTransaction, which leaves the pool alone when it fails.
  unfoldable pub add_transaction : Pool → Transaction → Outcome PoolError Pool
  add_transaction p txn =
      let txid = transaction_id crypto txn in
      elim (get_txn p.txns txid) [
        | some known ↦ ok p
        | none ↦ elim (validate_pool_transaction p txn) [
          | ok txn' ↦ ok (record p { txns = put_txn p.txns txid txn' })
          | err e ↦ err e
          | panic ↦ panic
        ]
      ]

  -- The loop of AddTransactionSet: the transactions before a failure stay in the pool.
  unfoldable pub add_each : Pool → List Transaction → Pool × Outcome PoolError (Unit {0})
  add_each p [] = (p, ok tt)
  add_each p (txn ∷ txns) = elim (add_transaction p txn) [
    | ok p' ↦ add_each p' txns
    | err e ↦ (p, err e)
    | panic ↦ (p, panic)
  ]

  -- AddTransactionSet
  unfoldable pub add_transaction_set : Pool → List Transaction → Pool × Outcome PoolError (Unit {0})
  add_transaction_set p txns = elim (validate_transaction_set crypto p.cs txns) [
    | ok u ↦ add_each p txns
    | err e ↦ (p, err (invalid e))
    | panic ↦ (p, panic)
  ]

  -- `for _, txn := range block.Transactions { delete(p.txns, txn.ID()) }`
  unfoldable pub delete_confirmed : List Transaction → Transactions → Transactions
  delete_confirmed [] txns = txns
  delete_confirmed (b ∷ bs) txns = delete_confirmed bs (delete_txn txns (transaction_id crypto b))

  -- The loop of ProcessChainApplyUpdate.
  unfoldable pub apply_each : ApplyUpdate → Transactions → Option Transactions
  apply_each au [] = some []
  apply_each au ((id, txn) ∷ txns) = apply_transaction_proofs crypto au txn >>= λ txn'.
      let txn'' : Transaction = record txn' {
        inputs = mine_inputs au.new_output_elements txn'.inputs;
      } in
      apply_each au txns >>= λ rest.
      some (if is_ok (validate_transaction crypto au.state txn'') then (id, txn'') ∷ rest else rest)

  -- ProcessChainApplyUpdate
  unfoldable pub process_apply : ApplyUpdate → Block → Pool → Option Pool
  process_apply au b p = apply_each au (delete_confirmed b.transactions p.txns) >>= λ txns.
      some (record { txns = txns; cs = au.state; prev_cs = p.cs; prev_update = au })

  -- The loop of ProcessChainRevertUpdate.
  unfoldable pub revert_each : RevertUpdate → Transactions → Option Transactions
  revert_each ru [] = some []
  revert_each ru ((id, txn) ∷ txns) =
      let txn' : Transaction = record txn {
        inputs = unmine_inputs ru.new_output_elements txn.inputs;
      } in
      if contains_reverted ru txn'.inputs
      then revert_each ru txns
      else revert_transaction_proofs crypto ru txn' >>= λ txn''. revert_each ru txns >>= λ rest.
          some (
            if is_ok (validate_transaction crypto ru.state txn'') then (id, txn'') ∷ rest else rest)

  -- `for _, txn := range block.Transactions { p.txns[txn.ID()] = txn }`
  unfoldable pub put_reverted : List Transaction → Transactions → Transactions
  put_reverted [] txns = txns
  put_reverted (b ∷ bs) txns = put_reverted bs (put_txn txns (transaction_id crypto b) b)

  -- ProcessChainRevertUpdate
  unfoldable pub process_revert : RevertUpdate → Block → Pool → Option Pool
  process_revert ru b p = revert_each ru p.txns >>= λ txns.
      some (record p { txns = put_reverted b.transactions txns; cs = ru.state })
