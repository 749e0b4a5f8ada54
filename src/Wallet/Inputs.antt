-- ===== src/Wallet/Inputs.antt =====
-- The inputs that Fund makes of the elements that it has chosen.
use sunyata.Common.{
  ℕ, ◌+◌, ◌≡◌, ◌⊎◌, refl, ap, ◌∙◌, inl, inr, arith, Bool, true, false, ◌||◌, List, [], ◌∷◌, ◌++◌,
  All, map, append_assoc, append-nil,
}
use sunyata.Common.Outcome.{ok, err}
use sunyata.Types.{ElementId, OutputElement, Input, Transaction, element_id_eq}
use sunyata.Consensus.Validation.Value.{input_units}
use sunyata.Wallet.{
  Store, Seed, Lookup, zero_signature, has_id, TransactionBuilder, WalletError, fund_inputs,
  element_ids,
}
use sunyata.Wallet.Signing.{Lookup-cases}
use sunyata.Wallet.Funding.{element_units}

pub input_units-append :
    (ins added : List Input)
    → input_units (ins ++ added)
      ≡ input_units ins + element_units (map (λ (i : Input). i.parent) added)
input_units-append [] [] = omega arith
input_units-append [] (i ∷ added) = omega (arith, input_units-append [] added)
input_units-append (i ∷ ins) added = omega (arith, input_units-append ins added)

-- Some element of the list has the property.
abbrev pub AnyOf : (OutputElement → Type 0) → List OutputElement → Type 0
AnyOf P [] = ⊥
AnyOf P (x ∷ xs) = P x ⊎ AnyOf P xs

module _ {S : Type 0} (ops : Store S) (seed : Seed) where
  -- The store does not return the key of the element's address.
  abbrev pub NoKey : S → OutputElement → Type 0
  NoKey store sce =
      (ops.address_index store sce.address ≡ Lookup.unknown)
      ⊎ (ops.address_index store sce.address ≡ Lookup.failed)

  -- The input has the key that the store has for its address, and no signature yet.
  abbrev pub Unsigned : S → Input → Type 0
  Unsigned store in' =
      (index : ℕ) × (ops.address_index store in'.parent.address ≡ Lookup.found index)
      × (in'.public_key ≡ seed.public_key index)
      × (in'.signature ≡ zero_signature)

  -- What fund_inputs returns without an error: an unsigned input for each element, in order, and
  -- the elements are reserved besides those before.
  pub record Spent (tb : TransactionBuilder S) (txn : Transaction) (sces : List OutputElement)
      (added : List Input) (tb' : TransactionBuilder S) (txn' : Transaction) : Type 0 where
    pub store_kept : tb'.store ≡ tb.store
    pub only_inputs : txn' ≡ record txn { inputs = txn.inputs ++ added }
    pub parents : map (λ (i : Input). i.parent) added ≡ sces
    pub unsigned : All (Unsigned tb.store) added
    pub reserved :
        (id : ElementId) → has_id tb'.used id ≡ (has_id (element_ids sces) id || has_id tb.used id)

  or_swap : (a b c : Bool) → (b || (a || c)) ≡ ((a || b) || c)
  or_swap true true c = refl
  or_swap true false c = refl
  or_swap false true c = refl
  or_swap false false c = refl

  pub fund_inputs-Spent :
      (tb : TransactionBuilder S) (txn : Transaction) (sces : List OutputElement)
      → ((added : List Input) × (tb' : TransactionBuilder S) × (txn' : Transaction) × (fund_inputs
              ops seed tb txn sces
            ≡ (ok tt, tb', txn'))
          × Spent tb txn sces added tb' txn')
        ⊎ (((fund_inputs ops seed tb txn sces).0 ≡ err WalletError.store_failed)
            × AnyOf (NoKey tb.store) sces)
  unfolding fund_inputs element_ids has_id
  fund_inputs-Spent tb txn [] = inl (
    [],
    tb,
    txn,
    refl,
    record {
      store_kept = refl;
      only_inputs = rw append-nil refl;
      parents = refl;
      unsigned = tt;
      reserved = λ id. refl;
    },
  )
  fund_inputs-Spent tb txn (sce ∷ sces) =
      elim (Lookup-cases (ops.address_index tb.store sce.address)) [
        | inr (inl l) ↦ inr (rw (l, fund_inputs) refl, inl (inl l))
        | inr (inr l) ↦ inr (rw (l, fund_inputs) refl, inl (inr l))
        | inl (index, l) ↦
            let in' : Input = record {
              parent = sce;
              public_key = seed.public_key index;
              signature = zero_signature;
            } in
            elim (fund_inputs-Spent (record tb { used = sce.id ∷ tb.used })
              (record txn { inputs = txn.inputs ++ in' ∷ [] }) sces) [
                | inl (added, tb', txn', e, s) ↦ inl (
                  in' ∷ added,
                  tb',
                  txn',
                  rw (l, fund_inputs) e,
                  record {
                    store_kept = s.store_kept;
                    only_inputs =
                        s.only_inputs
                        ∙ ap (λ is. record txn { inputs = is })
                            (append_assoc txn.inputs (in' ∷ []) added);
                    parents = ap (λ ps. sce ∷ ps) s.parents;
                    unsigned = ((index, l, refl, refl), s.unsigned);
                    reserved = λ id.
                        s.reserved id
                        ∙ or_swap (element_id_eq sce.id id) (has_id (element_ids sces) id)
                            (has_id tb.used id);
                  },
                )
                | inr (e, none_known) ↦ inr (rw (l, fund_inputs) e, inr none_known)
              ]
      ]
