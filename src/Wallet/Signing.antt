-- ===== src/Wallet/Signing.antt =====
-- What SignTransaction leaves of a transaction.
use sunyata.Common.{
  ℕ, suc, ◌≡◌, ◌⊎◌, refl, ap, ◌∙◌, inl, inr, Bool-cases, Option-cases, none, some, List, [], ◌∷◌,
  ◌++◌, length,
}
use sunyata.Encoding.{encode_all, write_string}
use sunyata.Types.{Crypto, Hash256, ElementId, Signature, Input, Transaction, element_id_eq}
use sunyata.Identity.{encode_parent_id, semantic_bytes, transaction_id}
use sunyata.Consensus.State.{input_sig_hash}
use sunyata.Wallet.{
  Store, Seed, Lookup, SigningLoop, TransactionBuilder, set_signature, input_with_id, sign_copies,
  sign_ids, sign_transaction,
}

pub Lookup-cases :
    (l : Lookup) → ((i : ℕ) × (l ≡ Lookup.found i)) ⊎ (l ≡ Lookup.unknown) ⊎ (l ≡ Lookup.failed)
Lookup-cases (Lookup.found i) = inl (i, refl)
Lookup-cases Lookup.unknown = inr (inl refl)
Lookup-cases Lookup.failed = inr (inr refl)

module _ {S : Type 0} (ops : Store S) (crypto : Crypto) (seed : Seed) where
  -- The loop over copies leaves the inputs as they were.
  pub inputs-sign_copies :
      (store : S) (sig_hash : Hash256) (xs : List Input) (vars : SigningLoop)
      → (sign_copies ops crypto seed store sig_hash xs vars).1.inputs ≡ vars.inputs
  unfolding sign_copies
  inputs-sign_copies store sig_hash [] vars = refl
  inputs-sign_copies store sig_hash (x ∷ xs) vars =
      elim (Lookup-cases (ops.address_index store x.parent.address)) [
        | inl (index, l) ↦
            rw (l, sign_copies)
              (inputs-sign_copies store sig_hash xs (record vars {
                in_var = some (record x { signature = seed.sign_hash index sig_hash });
              }))
        | inr (inl l) ↦
            rw (l, sign_copies)
              (inputs-sign_copies store sig_hash xs (record vars { in_var = some x }))
        | inr (inr l) ↦ rw (l, sign_copies) refl
      ]

  length-set_signature :
      (ins : List Input) (id : ElementId) (sig : Signature)
      → length (set_signature ops crypto seed ins id sig) ≡ length ins
  unfolding set_signature
  length-set_signature [] id sig = refl
  length-set_signature (in' ∷ ins) id sig = elim (Bool-cases (element_id_eq in'.parent.id id)) [
    | inl e ↦ rw e refl
    | inr e ↦ rw e (ap suc (length-set_signature ins id sig))
  ]

  parents-set_signature :
      (ins : List Input) (id : ElementId) (sig : Signature)
      → encode_all encode_parent_id (set_signature ops crypto seed ins id sig)
        ≡ encode_all encode_parent_id ins
  unfolding set_signature encode_all
  parents-set_signature [] id sig = refl
  parents-set_signature (in' ∷ ins) id sig = elim (Bool-cases (element_id_eq in'.parent.id id)) [
    | inl e ↦ rw e refl
    | inr e ↦ rw e (ap (λ t. encode_parent_id in' ++ t) (parents-set_signature ins id sig))
  ]

  semantic_bytes-sign_ids :
      (store : S) (sig_hash : Hash256) (txn : Transaction) (ids : List ElementId)
      → semantic_bytes (sign_ids ops crypto seed store sig_hash txn ids).1 ≡ semantic_bytes txn
  unfolding sign_ids semantic_bytes
  semantic_bytes-sign_ids store sig_hash txn [] = refl
  semantic_bytes-sign_ids store sig_hash txn (id ∷ ids) =
      elim (Option-cases (input_with_id ops crypto seed txn.inputs id)) [
        | inl e ↦ rw (e, sign_ids) refl
        | inr (in', e) ↦ elim (Lookup-cases (ops.address_index store in'.parent.address)) [
          | inl (index, l) ↦
              let sig = seed.sign_hash index sig_hash in
              let txn' : Transaction = record txn {
                inputs = set_signature ops crypto seed txn.inputs id sig;
              } in
              let same_bytes : semantic_bytes txn' ≡ semantic_bytes txn =
                rw (length-set_signature txn.inputs id sig, parents-set_signature txn.inputs id sig)
                  refl in
              rw (e, l, sign_ids) (semantic_bytes-sign_ids store sig_hash txn' ids ∙ same_bytes)
          | inr (inl l) ↦ rw (e, l, sign_ids) refl
          | inr (inr l) ↦ rw (e, l, sign_ids) refl
        ]
      ]

  -- SignTransaction changes neither the identifier nor the hash that signatures sign, whatever it
  -- returns.
  pub sign_transaction-transaction_id :
      (tb : TransactionBuilder S) (txn : Transaction) (to_sign : List ElementId)
      → let txn' = (sign_transaction ops crypto seed tb txn to_sign).1 in
        (transaction_id crypto txn' ≡ transaction_id crypto txn)
        × (input_sig_hash crypto txn' ≡ input_sig_hash crypto txn)
  unfolding sign_transaction transaction_id input_sig_hash
  sign_transaction-transaction_id tb txn [] =
      let same : (sign_transaction ops crypto seed tb txn []).1 ≡ txn =
        ap (λ ins. let t : Transaction = record txn { inputs = ins } in t)
          (inputs-sign_copies tb.store (input_sig_hash crypto txn) txn.inputs
            (record { inputs = txn.inputs; in_var = none })) in
      (ap (transaction_id crypto) same, ap (input_sig_hash crypto) same)
  sign_transaction-transaction_id tb txn (id ∷ ids) =
      let same_bytes =
        semantic_bytes-sign_ids tb.store (input_sig_hash crypto txn) txn (id ∷ ids) in
      (
        ap (λ bytes. crypto.sum512_256 (write_string "sunyata/id/transaction" ++ bytes)) same_bytes,
        ap (λ bytes. crypto.sum512_256 (write_string "sunyata/sig/transactioninput" ++ bytes))
            same_bytes,
      )
