-- ===== src/Wallet.antt =====
-- wallet/wallet.go: TransactionBuilder. The mutex makes every method one step. The Store, an
-- interface, and the keys of the seed are parameters. `used` is the list of the keys of the map.
pub mod Funding
pub mod Inputs
pub mod Balance
pub mod Signing
pub mod Signed
use sunyata.Common.{
  ℕ, Bool, true, false, not, ◌&&◌, ◌||◌, Option, none, some, List, [], ◌∷◌, ◌++◌, ltb, replicate,
  if◌then◌else◌,
}
use sunyata.Common.Outcome.{Outcome, ok, err, panic, ◌>>=◌}
use sunyata.Currency.{Currency, zero_currency, is_zero, add, sub, cmp, less, same, greater}
use sunyata.Types.{
  Crypto, Address, Hash256, PublicKey, Signature, ElementId, Output, OutputElement, Input,
  Transaction, element_id_eq,
}
use sunyata.Identity.{address}
use sunyata.Consensus.State.{State, input_sig_hash}

-- The zero value of a signature.
abbrev pub zero_signature : Signature
zero_signature = replicate 64 0

-- What AddressIndex returns: an index, ErrUnknownAddress, or another error.
pub data Lookup : Type 0 where
  found : ℕ → Lookup
  unknown failed : Lookup

-- The Store interface, on states of type `S`; `none` is an error.
pub record Store (S : Type 0) : Type 0 where
  pub seed_index : S → ℕ
  pub add_address : S → Address → ℕ → Option S
  pub address_index : S → Address → Lookup
  pub unspent_output_elements : S → Option (List OutputElement)

-- The keys that a seed derives: `seed.PublicKey(i)` and `seed.PrivateKey(i).SignHash(h)`.
pub record Seed : Type 0 where
  pub public_key : ℕ → PublicKey
  pub sign_hash : ℕ → Hash256 → Signature

pub data WalletError : Type 0 where
  store_failed insufficient_balance no_input no_key : WalletError

pub record TransactionBuilder (S : Type 0) : Type 0 where
  pub store : S
  pub used : List ElementId

-- The variables of the loop of SignTransaction without IDs: the array behind `txn.Inputs`, and the
-- loop variable `in`, which is a variable of its own.
pub record SigningLoop : Type 0 where
  pub inputs : List Input
  pub in_var : Option Input

-- `m[id]` on a map to booleans.
unfoldable pub has_id : List ElementId → ElementId → Bool
has_id [] id = false
has_id (k ∷ ks) id = element_id_eq k id || has_id ks id

-- `delete(m, id)`
unfoldable pub delete_id : List ElementId → ElementId → List ElementId
delete_id [] id = []
delete_id (k ∷ ks) id = let rest = delete_id ks id in if element_id_eq k id then rest else k ∷ rest

unfoldable pub release_ids : List ElementId → List Input → List ElementId
release_ids used [] = used
release_ids used (in' ∷ ins) = release_ids (delete_id used in'.parent.id) ins

-- ReleaseInputs
unfoldable pub release_inputs :
    {S : Type 0} → TransactionBuilder S → Transaction → TransactionBuilder S
release_inputs tb txn = record tb { used = release_ids tb.used txn.inputs }

-- The keys of `inPool`.
unfoldable pub input_ids : List Input → List ElementId
input_ids [] = []
input_ids (in' ∷ ins) = in'.parent.id ∷ input_ids ins

unfoldable pub pool_ids : List Transaction → List ElementId
unfolding input_ids
pool_ids [] = []
pool_ids (txn ∷ txns) = input_ids txn.inputs ++ pool_ids txns

-- `outputSum.Cmp(amount) >= 0`
unfoldable pub reaches : Currency → Currency → Bool
reaches sum amount = elim (cmp sum amount) [ less ↦ false | _ ↦ true ]

-- The loop over the unspent outputs, from the sum so far; the sum may panic.
unfoldable pub choose :
    (OutputElement → Bool)
    → Currency
    → Currency
    → List OutputElement
    → Outcome WalletError (List OutputElement × Currency)
choose usable amount sum [] = ok ([], sum)
choose usable amount sum (sce ∷ utxos) =
    let skipped = choose usable amount sum utxos in
    if not (usable sce) then skipped else elim (add sum sce.value) [
      | none ↦ panic
      | some sum' ↦
          let rest = choose usable amount sum' utxos in
          if reaches sum' amount
          then ok (sce ∷ [], sum')
          else rest >>= λ chosen. ok (sce ∷ chosen.0, chosen.1)
    ]

unfoldable pub element_ids : List OutputElement → List ElementId
element_ids [] = []
element_ids (sce ∷ sces) = sce.id ∷ element_ids sces

-- What follows a call that changes the builder and the transaction, unless that ended the function.
abbrev pub if_ok :
    {S A : Type 0}
    → Outcome WalletError (Unit {0}) × TransactionBuilder S × Transaction
    → (TransactionBuilder S
        → Transaction
        → Outcome WalletError A × TransactionBuilder S × Transaction)
    → Outcome WalletError A × TransactionBuilder S × Transaction
if_ok (ok u, tb, txn) next = next tb txn
if_ok (err e, tb, txn) next = (err e, tb, txn)
if_ok (panic, tb, txn) next = (panic, tb, txn)

module _ {S : Type 0} (ops : Store S) where
  -- The outputs that ReserveFunds and Fund choose, or their errors before anything is changed.
  unfoldable pub funding :
      (OutputElement → Bool)
      → TransactionBuilder S
      → Currency
      → Outcome WalletError (List OutputElement × Currency)
  funding usable tb amount = elim (ops.unspent_output_elements tb.store) [
    | none ↦ err store_failed
    | some utxos ↦ choose usable amount zero_currency utxos >>= λ chosen.
        if reaches chosen.1 amount then ok chosen else err insufficient_balance
  ]

  -- ReserveFunds
  unfoldable pub reserve_funds :
      TransactionBuilder S
      → Currency
      → List Transaction
      → Outcome WalletError (List OutputElement × TransactionBuilder S)
  unfolding element_ids
  reserve_funds tb amount pool =
      if is_zero amount
      then ok ([], tb)
      else (funding (λ sce. not (has_id tb.used sce.id || has_id (pool_ids pool) sce.id)) tb amount
          >>= λ chosen. ok (chosen.0, record tb { used = element_ids chosen.0 ++ tb.used }))

  -- The loop of Fund over the chosen elements. What it changed before an error stays.
  unfoldable pub fund_inputs :
      Seed
      → TransactionBuilder S
      → Transaction
      → List OutputElement
      → Outcome WalletError (Unit {0}) × TransactionBuilder S × Transaction
  fund_inputs seed tb txn [] = (ok tt, tb, txn)
  fund_inputs seed tb txn (sce ∷ sces) = elim (ops.address_index tb.store sce.address) [
    | found index ↦
        fund_inputs seed (record tb { used = sce.id ∷ tb.used })
          (record txn {
            inputs =
                txn.inputs
                ++ record {
                  parent = sce;
                  public_key = seed.public_key index;
                  signature = zero_signature;
                }
                  ∷ [];
          })
          sces
    | _ ↦ (err store_failed, tb, txn)
  ]

  module _ (crypto : Crypto) (seed : Seed) where
    -- The change output of Fund: the address is stored before the difference is taken.
    unfoldable pub add_change :
        TransactionBuilder S
        → Transaction
        → Currency
        → Currency
        → Outcome WalletError (Unit {0}) × TransactionBuilder S × Transaction
    add_change tb txn total amount = elim (cmp total amount) [
      | greater ↦
          let index = ops.seed_index tb.store in
          let addr = address crypto (seed.public_key index) in
          elim (ops.add_address tb.store addr index) [
            | none ↦ (err store_failed, tb, txn)
            | some store' ↦
                let tb' = record tb { store = store' } in
                elim (sub total amount) [
                  | none ↦ (panic, tb', txn)
                  | some change ↦ (
                    ok tt,
                    tb',
                    record txn {
                      outputs = txn.outputs ++ record { value = change; address = addr } ∷ [];
                    },
                  )
                ]
          ]
      | _ ↦ (ok tt, tb, txn)
    ]

    -- Fund: what it returns, and what it leaves of the builder and the transaction.
    unfoldable pub fund :
        TransactionBuilder S
        → State
        → Transaction
        → Currency
        → List Transaction
        → Outcome WalletError (List ElementId) × TransactionBuilder S × Transaction
    fund tb cs txn amount pool =
        let usable : OutputElement → Bool = λ sce. not (
          has_id tb.used sce.id
          || has_id (pool_ids pool) sce.id
          || ltb cs.index.height sce.maturity_height) in
        if is_zero amount then (ok [], tb, txn) else elim (funding usable tb amount) [
          | panic ↦ (panic, tb, txn)
          | err e ↦ (err e, tb, txn)
          | ok (chosen, total) ↦ if_ok (add_change tb txn total amount) (λ tb' txn'.
              if_ok (fund_inputs seed tb' txn' chosen)
                (λ tb'' txn''. (ok (element_ids chosen), tb'', txn'')))
        ]

    -- The loop of SignTransaction without IDs, over the inputs that `range` still yields: each is
    -- copied into the variable `in`, and the signature is assigned to the variable.
    unfoldable pub sign_copies :
        S → Hash256 → List Input → SigningLoop → Outcome WalletError (Unit {0}) × SigningLoop
    sign_copies store sig_hash [] vars = (ok tt, vars)
    sign_copies store sig_hash (x ∷ xs) vars = elim (ops.address_index store x.parent.address) [
      | found index ↦
          sign_copies store sig_hash xs
            (record vars { in_var = some (record x { signature = seed.sign_hash index sig_hash }) })
      | unknown ↦ sign_copies store sig_hash xs (record vars { in_var = some x })
      | failed ↦ (err store_failed, record vars { in_var = some x })
    ]

    -- `inputWithID`
    unfoldable pub input_with_id : List Input → ElementId → Option Input
    input_with_id [] id = none
    input_with_id (in' ∷ ins) id =
        let rest = input_with_id ins id in if element_id_eq in'.parent.id id then some in' else rest

    -- `in.Signature = sig` on the input that `inputWithID` found.
    unfoldable pub set_signature : List Input → ElementId → Signature → List Input
    set_signature [] id sig = []
    set_signature (in' ∷ ins) id sig =
        let rest = set_signature ins id sig in
        if element_id_eq in'.parent.id id then record in' { signature = sig } ∷ ins else in' ∷ rest

    -- The loop of SignTransaction over the IDs.
    unfoldable pub sign_ids :
        S → Hash256 → Transaction → List ElementId → Outcome WalletError (Unit {0}) × Transaction
    sign_ids store sig_hash txn [] = (ok tt, txn)
    sign_ids store sig_hash txn (id ∷ ids) = elim (input_with_id txn.inputs id) [
      | none ↦ (err no_input, txn)
      | some in' ↦ elim (ops.address_index store in'.parent.address) [
        | unknown ↦ (err no_key, txn)
        | failed ↦ (err store_failed, txn)
        | found index ↦
            sign_ids store sig_hash
              (record txn { inputs = set_signature txn.inputs id (seed.sign_hash index sig_hash) })
              ids
      ]
    ]

    -- SignTransaction
    unfoldable pub sign_transaction :
        TransactionBuilder S
        → Transaction
        → List ElementId
        → Outcome WalletError (Unit {0}) × Transaction
    sign_transaction tb txn [] =
        let (result, vars) =
          sign_copies tb.store (input_sig_hash crypto txn) txn.inputs
            (record { inputs = txn.inputs; in_var = none }) in
        (result, record txn { inputs = vars.inputs })
    sign_transaction tb txn (id ∷ ids) =
        sign_ids tb.store (input_sig_hash crypto txn) txn (id ∷ ids)
