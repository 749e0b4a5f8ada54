-- ===== src/Wallet/Balance.antt =====
-- What Fund makes of a transaction, and when it returns an error.
use sunyata.Common.{
  ℕ, map, none, ◌+◌, ◌^◌, ◌≤◌, ◌<◌, ◌≡◌, ◌⊎◌, refl, sym, ◌∙◌, ap, inl, inr, arith, Bool, true,
  false, not, ◌||◌, ltb, some, List, [], ◌∷◌, ◌++◌, All, Option-cases,
}
use sunyata.Common.Outcome.{Outcome, ok, err, panic, ◌>>=◌}
use sunyata.Currency.{Currency, IsCurrency, units, zero_currency, is_zero}
use sunyata.Currency.Arithmetic.{sub_exact, cmp_exact}
use sunyata.Types.{Crypto, Address, ElementId, Output, OutputElement, Input, Transaction}
use sunyata.Identity.{address}
use sunyata.Consensus.State.{State}
use sunyata.Consensus.Validation.Value.{input_units, output_units}
use sunyata.Wallet.{
  Store, Seed, has_id, pool_ids, TransactionBuilder, WalletError, funding, add_change, fund, if_ok,
  element_ids,
}
use sunyata.Wallet.Inputs.{input_units-append, AnyOf, NoKey, Unsigned, Spent, fund_inputs-Spent}
use sunyata.Wallet.Funding.{Sublist, usable_units, element_units, choose-IsChosen, reaches-cases}

output_units-append :
    (outs : List Output) (out : Output)
    → output_units (outs ++ out ∷ []) ≡ output_units outs + units out.value
output_units-append [] out = omega arith
output_units-append (o ∷ outs) out = omega (arith, output_units-append outs out)

-- An error ends the function.
if_ok-err :
    {S A : Type 0} (r : Outcome WalletError (Unit {0}) × TransactionBuilder S × Transaction)
    (next : TransactionBuilder S
      → Transaction
      → Outcome WalletError A × TransactionBuilder S × Transaction)
    {x : WalletError}
    → r.0 ≡ err x
    → (if_ok r next).0 ≡ err x
if_ok-err (ok u, tb, txn) next e = absurd (cc)
if_ok-err (err y, tb, txn) next e = let same_error = e in cc
if_ok-err (panic, tb, txn) next e = absurd (cc)

module _ {S : Type 0} (ops : Store S) (seed : Seed) (crypto : Crypto) where
  -- The address for the change: that of the next key of the seed.
  abbrev pub change_address : S → Address
  change_address store = address crypto (seed.public_key (ops.seed_index store))

  -- Nothing is left over; or the change goes to an address that the store records under its index.
  abbrev pub Change : S → S → List Output → List Output → ℕ → ℕ → Type 0
  Change store store' outs outs' total amount =
      ((total ≡ amount) × (store' ≡ store) × (outs' ≡ outs))
      ⊎ ((change : Currency) × (amount < total)
          × (units change + amount ≡ total)
          × (ops.add_address store (change_address store) (ops.seed_index store) ≡ some store')
          × (outs' ≡ outs ++ record { value = change; address = change_address store } ∷ []))

  -- The store refuses the address for the change.
  abbrev pub NoChange : S → ℕ → ℕ → Type 0
  NoChange store total amount =
      (amount < total)
      × (ops.add_address store (change_address store) (ops.seed_index store) ≡ none)

  Change-units :
      (store store' : S) (outs outs' : List Output) (total amount : ℕ)
      → Change store store' outs outs' total amount
      → output_units outs' + amount ≡ output_units outs + total
  Change-units store store' outs outs' total amount (inl (e, kept, same)) =
      omega (arith, e, ap output_units same)
  Change-units store store' outs outs' total amount (inr (change, lt, exact, kept, more)) = omega (
    arith,
    exact,
    ap output_units more,
    output_units-append outs (record { value = change; address = change_address store }),
  )

  add_change-Change :
      (tb : TransactionBuilder S) (txn : Transaction) (total amount : Currency)
      → IsCurrency total
      → IsCurrency amount
      → units amount ≤ units total
      → ((tb' : TransactionBuilder S) × (txn' : Transaction) × (add_change ops crypto seed tb txn
              total amount
            ≡ (ok tt, tb', txn'))
          × (tb'.used ≡ tb.used)
          × (txn' ≡ record txn { outputs = txn'.outputs })
          × Change tb.store tb'.store txn.outputs txn'.outputs (units total) (units amount))
        ⊎ (((add_change ops crypto seed tb txn total amount).0 ≡ err WalletError.store_failed)
            × NoChange tb.store (units total) (units amount))
  unfolding add_change
  add_change-Change tb txn total amount ht ha le = elim (cmp_exact total amount ht ha) [
    | inl (e, lt) ↦ absurd (omega (arith, le, lt))
    | inr (inl (e, eq)) ↦
        inl (tb, txn, rw (e, add_change) refl, refl, refl, inl (omega (arith, eq), refl, refl))
    | inr (inr (e, gt)) ↦
        let index = ops.seed_index tb.store in
        elim (Option-cases (ops.add_address tb.store (change_address tb.store) index)) [
          | inl a ↦ inr (rw (e, a, add_change) refl, (omega (arith, gt), a))
          | inr (store', a) ↦ elim (sub_exact total amount ht ha) [
            | inr (d, under) ↦ absurd (omega (arith, under, gt))
            | inl (change, d, exact, hd) ↦
                let out : Output = record { value = change; address = change_address tb.store } in
                inl (
                  record tb { store = store' },
                  record txn { outputs = txn.outputs ++ out ∷ [] },
                  rw (e, a, d, add_change) refl,
                  refl,
                  refl,
                  inr (change, omega (arith, gt), omega (arith, exact), a, refl),
                )
          ]
        ]
  ]

  -- What Fund may spend: not reserved, not spent in the pool, and mature.
  abbrev pub spendable : TransactionBuilder S → State → List Transaction → OutputElement → Bool
  spendable tb cs pool sce = not (
      has_id tb.used sce.id
      || has_id (pool_ids pool) sce.id
      || ltb cs.index.height sce.maturity_height)

  -- What Fund makes of the elements that it chooses. The transaction gets an unsigned input with the
  -- address's key for each of them, in order, and an output for the change; the elements are
  -- reserved besides those before.
  pub record Funded (tb : TransactionBuilder S) (txn : Transaction) (amount : ℕ)
      (chosen : List OutputElement) (added : List Input) (tb' : TransactionBuilder S)
      (txn' : Transaction) : Type 0 where
    pub others : txn' ≡ record txn { inputs = txn.inputs ++ added; outputs = txn'.outputs }
    pub parents : map (λ (i : Input). i.parent) added ≡ chosen
    pub unsigned : All (Unsigned ops seed tb'.store) added
    pub reserved :
        (id : ElementId)
        → has_id tb'.used id ≡ (has_id (element_ids chosen) id || has_id tb.used id)
    pub change : Change tb.store tb'.store txn.outputs txn'.outputs (element_units chosen) amount
    pub balance :
        input_units txn'.inputs + output_units txn.outputs
        ≡ input_units txn.inputs + output_units txn'.outputs + amount

  assemble :
      (tb tb1 tb2 : TransactionBuilder S) (txn txn1 txn2 : Transaction) (amount : ℕ)
      (chosen : List OutputElement) (added : List Input)
      → tb1.used ≡ tb.used
      → txn1 ≡ record txn { outputs = txn1.outputs }
      → Change tb.store tb1.store txn.outputs txn1.outputs (element_units chosen) amount
      → Spent ops seed tb1 txn1 chosen added tb2 txn2
      → Funded tb txn amount chosen added tb2 txn2
  assemble tb tb1 tb2 txn txn1 txn2 amount chosen added used outs change s =
      let inputs : txn1.inputs ≡ txn.inputs = ap (λ (t : Transaction). t.inputs) outs in
      let outs2 : txn2.outputs ≡ txn1.outputs = ap (λ (t : Transaction). t.outputs) s.only_inputs in
      record {
        others =
            s.only_inputs
            ∙ (ap (λ (t : Transaction). record t { inputs = t.inputs ++ added }) outs
                ∙ ap
                    (λ os.
                      let t : Transaction = record txn {
                        inputs = txn.inputs ++ added;
                        outputs = os;
                      } in
                      t)
                    (sym outs2));
        parents = s.parents;
        unsigned = rw s.store_kept s.unsigned;
        reserved = λ id. rw (← used) (s.reserved id);
        change = rw (s.store_kept, outs2) change;
        balance = omega (
          arith,
          Change-units tb.store tb1.store txn.outputs txn1.outputs (element_units chosen) amount
              change,
          ap output_units outs2,
          ap (λ (t : Transaction). input_units t.inputs) s.only_inputs,
          ap input_units inputs,
          input_units-append txn1.inputs added,
          ap element_units s.parents,
        );
      }

  -- Fund, for a nonzero amount and unspent outputs that are worth less than 2^128 in all, ends in
  -- one of four ways, and never in a panic. It returns the identifiers of some of the unspent
  -- outputs, which are spendable: the transaction has new unsigned inputs for them and an output
  -- for what they are worth above the amount, if anything, to an address that the store now has, and
  -- they are reserved. Or the spendable outputs are worth less than the amount: an error, with the
  -- builder and the transaction as they were. Or the store refuses the address for the change, or
  -- has no key for one of the chosen elements: an error.
  pub fund_lem :
      (tb : TransactionBuilder S) (cs : State) (txn : Transaction) (amount : Currency)
      (pool : List Transaction) (utxos : List OutputElement)
      → ops.unspent_output_elements tb.store ≡ some utxos
      → IsCurrency amount
      → is_zero amount ≡ false
      → All (λ (sce : OutputElement). IsCurrency sce.value) utxos
      → element_units utxos < 2 ^ 128
      → ((chosen : List OutputElement) × Sublist chosen utxos
          × All (λ sce. spendable tb cs pool sce ≡ true) chosen
          × (((added : List Input) × (tb' : TransactionBuilder S) × (txn' : Transaction) × (fund ops
                    crypto seed tb cs txn amount pool
                  ≡ (ok (element_ids chosen), tb', txn'))
                × Funded tb txn (units amount) chosen added tb' txn')
              ⊎ (((fund ops crypto seed tb cs txn amount pool).0 ≡ err WalletError.store_failed)
                  × (NoChange tb.store (element_units chosen) (units amount)
                      ⊎ ((store : S) × (outs : List Output) × Change tb.store store txn.outputs outs
                            (element_units chosen)
                            (units amount)
                          × AnyOf (NoKey ops seed store) chosen)))))
        ⊎ ((fund ops crypto seed tb cs txn amount pool
              ≡ (err WalletError.insufficient_balance, tb, txn))
            × (usable_units (spendable tb cs pool) utxos < units amount))
  unfolding fund funding
  fund_lem tb cs txn amount pool utxos found ha nonzero fits small =
      let (chosen, total, e, c) =
        choose-IsChosen (spendable tb cs pool) amount zero_currency utxos ha
          (record { lo_fits = omega arith; hi_fits = omega arith }) fits (omega (arith, small)) in
      let worth : units total ≡ element_units chosen = omega (arith, c.total_lem) in
      elim (reaches-cases total amount c.total_fits ha) [
        | inr (short, lt) ↦ elim c.reached [
          | inl le ↦ absurd (omega (arith, le, lt))
          | inr all ↦ inr (rw (nonzero, found, e, ◌>>=◌) (rw short refl), omega (arith, all, lt))
        ]
        | inl (enough, le) ↦ inl (
          chosen,
          c.from_utxos,
          c.all_usable,
          elim (add_change-Change tb txn total amount c.total_fits ha le) [
            | inr (refused, why) ↦ inr (
              rw (nonzero, found, e, ◌>>=◌) (rw enough (if_ok-err _ _ refused)),
              inl (rw worth at why),
            )
            | inl (tb1, txn1, e1, used, outs, change) ↦
                elim (fund_inputs-Spent ops seed tb1 txn1 chosen) [
                  | inr (refused, why) ↦ inr (
                    rw (nonzero, found, e, ◌>>=◌) (rw (enough, e1) (if_ok-err _ _ refused)),
                    inr (tb1.store, txn1.outputs, (rw worth at change), why),
                  )
                  | inl (added, tb2, txn2, e2, s) ↦ inl (
                    added,
                    tb2,
                    txn2,
                    rw (nonzero, found, e, ◌>>=◌) (rw (enough, e1, e2) refl),
                    assemble tb tb1 tb2 txn txn1 txn2 (units amount) chosen added used outs
                        (rw worth at change) s,
                  )
                ]
          ],
        )
      ]
