-- ===== src/Tests/Funds.antt =====
-- A wallet with one output, over a store that knows every address.
use sunyata.Common.{
  ◌≤◌, ◌<◌, ◌≡◌, ◌⊎◌, refl, arith, true, false, some, List, [], ◌∷◌, ◌++◌, All, Pairs,
}
use sunyata.Common.Outcome.{ok, err}
use sunyata.Currency.{Currency, IsCurrency, units, is_zero}
use sunyata.Types.{Output, OutputElement, Input, Transaction}
use sunyata.Identity.{transaction_id}
use sunyata.Consensus.State.{input_sig_hash}
use sunyata.Wallet.{
  Store, Seed, Lookup, TransactionBuilder, WalletError, reserve_funds, fund, element_ids, input_ids,
  sign_transaction,
}
use sunyata.Wallet.Funding.{Sublist, element_units, usable_units, free, reserve_funds_lem}
use sunyata.Wallet.Inputs.{AnyOf, NoKey}
use sunyata.Wallet.Balance.{spendable, Change, NoChange, Funded, fund_lem}
use sunyata.Wallet.Signing.{sign_transaction-transaction_id}
use sunyata.Wallet.Signed.{AnyId, SignedFor, Refused, sign_transaction-SignedFor}
use sunyata.Tests.Data.{toy, parent, payment, state}

abbrev ops : Store (Unit {0})
ops = record {
  seed_index = λ s. 5;
  add_address = λ s addr index. some s;
  address_index = λ s addr. Lookup.found 0;
  unspent_output_elements = λ s. some (parent ∷ []);
}

abbrev seed : Seed
seed = record { public_key = λ i. i ∷ []; sign_hash = λ i hash. hash }

abbrev builder : TransactionBuilder (Unit {0})
builder = record { store = tt; used = [] }

abbrev price : Currency
price = record { lo = 4; hi = 0 }

abbrev draft : Transaction
draft = record {
  inputs = [];
  outputs = record { value = price; address = 8 ∷ [] } ∷ [];
  miner_fee = record { lo = 0; hi = 0 };
}

price-IsCurrency : IsCurrency price
price-IsCurrency = record { lo_fits = omega arith; hi_fits = omega arith }

nonzero_price : is_zero price ≡ false
unfolding is_zero
nonzero_price = refl

elements_fit : All (λ (sce : OutputElement). IsCurrency sce.value) (parent ∷ [])
elements_fit = (record { lo_fits = omega arith; hi_fits = omega arith }, tt)

reserve_funds_lem_example :
    ((chosen : List OutputElement) × (reserve_funds ops builder price []
        ≡ ok (chosen, record builder { used = element_ids chosen ++ builder.used }))
      × All (λ sce. free ops builder [] sce ≡ true) chosen
      × (units price ≤ element_units chosen))
    ⊎ ((reserve_funds ops builder price [] ≡ err WalletError.insufficient_balance)
        × (usable_units (free ops builder []) (parent ∷ []) < units price))
reserve_funds_lem_example =
    reserve_funds_lem ops builder price [] (parent ∷ []) refl price-IsCurrency nonzero_price
      elements_fit (omega arith)

fund_lem_example :
    ((chosen : List OutputElement) × Sublist chosen (parent ∷ [])
      × All (λ sce. spendable ops seed toy builder state [] sce ≡ true) chosen
      × (((added : List Input) × (tb' : TransactionBuilder (Unit {0})) × (txn' : Transaction)
            × (fund ops toy seed builder state draft price []
                ≡ (ok (element_ids chosen), tb', txn'))
            × Funded ops seed toy builder draft (units price) chosen added tb' txn')
          ⊎ (((fund ops toy seed builder state draft price []).0 ≡ err WalletError.store_failed)
              × (NoChange ops seed toy builder.store (element_units chosen) (units price)
                  ⊎ ((store : Unit {0}) × (outs : List Output) × Change ops seed toy builder.store
                        store draft.outputs outs
                        (element_units chosen)
                        (units price)
                      × AnyOf (NoKey ops seed store) chosen)))))
    ⊎ ((fund ops toy seed builder state draft price []
          ≡ (err WalletError.insufficient_balance, builder, draft))
        × (usable_units (spendable ops seed toy builder state []) (parent ∷ []) < units price))
fund_lem_example =
    fund_lem ops seed toy builder state draft price [] (parent ∷ []) refl price-IsCurrency
      nonzero_price elements_fit (omega arith)

sign_transaction-transaction_id_example :
    let txn' = (sign_transaction ops toy seed builder payment (parent.id ∷ [])).1 in
    (transaction_id toy txn' ≡ transaction_id toy payment)
    × (input_sig_hash toy txn' ≡ input_sig_hash toy payment)
sign_transaction-transaction_id_example =
    sign_transaction-transaction_id ops toy seed builder payment (parent.id ∷ [])

sign_transaction-SignedFor_example :
    ((ins : List Input) × (sign_transaction ops toy seed builder payment (parent.id ∷ [])
        ≡ (ok tt, record payment { inputs = ins }))
      × Pairs
          (SignedFor ops toy seed builder.store (input_sig_hash toy payment) (parent.id ∷ []))
          payment.inputs
          ins)
    ⊎ ((e : WalletError) × ((sign_transaction ops toy seed builder payment (parent.id ∷ [])).0
          ≡ err e)
        × AnyId (Refused ops toy seed builder.store payment.inputs e) (parent.id ∷ []))
unfolding input_ids
sign_transaction-SignedFor_example =
    sign_transaction-SignedFor ops toy seed builder payment parent.id [] (tt, tt)
