-- ===== src/Wallet/Signed.antt =====
-- SignTransaction with a list of identifiers: which inputs it signs, and with which keys.
use sunyata.Common.{
  ℕ, if◌then◌else◌, ◌≡◌, ◌≢◌, ◌⊎◌, refl, sym, subst, ap, ◌∙◌, inl, inr, Bool-cases, Option-cases,
  Option, none, some, List, [], ◌∷◌, All, Pairs, Pairs-trans,
}
use sunyata.Common.Outcome.{ok, err}
use sunyata.Types.{
  Crypto, Address, Hash256, ElementId, Signature, OutputElement, Input, Transaction, element_id_eq,
}
use sunyata.Consensus.State.{input_sig_hash}
use sunyata.Consensus.Blocks.DoubleSpends.{Distinct, element_id_eq_iff}
use sunyata.Wallet.{
  Store, Seed, Lookup, TransactionBuilder, WalletError, no_input, no_key, store_failed, input_ids,
  input_with_id, set_signature, sign_ids, sign_transaction,
}
use sunyata.Wallet.Signing.{Lookup-cases}

-- The address of the first input with the identifier.
abbrev pub address_of : List Input → ElementId → Option Address
address_of [] id = none
address_of (x ∷ xs) id =
    let rest = address_of xs id in
    if element_id_eq x.parent.id id then some x.parent.address else rest

-- An identifier of the list has the property.
abbrev pub AnyId : (ElementId → Type 0) → List ElementId → Type 0
AnyId P [] = ⊥
AnyId P (x ∷ xs) = P x ⊎ AnyId P xs

AnyId-map :
    (P Q : ElementId → Type 0) (ids : List ElementId)
    → ((id : ElementId) → P id → Q id)
    → AnyId P ids
    → AnyId Q ids
AnyId-map P Q [] f h = absurd h
AnyId-map P Q (x ∷ xs) f (inl p) = inl (f x p)
AnyId-map P Q (x ∷ xs) f (inr h) = inr (AnyId-map P Q xs f h)

module _ {S : Type 0} (ops : Store S) (crypto : Crypto) (seed : Seed) where
  -- An input with one of the identifiers gets the signature of its address's key; any other input
  -- stays as it was.
  abbrev pub SignedFor : S → Hash256 → List ElementId → Input → Input → Type 0
  SignedFor store sig_hash ids old new =
      (AnyId (λ id. old.parent.id ≡ id) ids
        × (index : ℕ) × (ops.address_index store old.parent.address ≡ Lookup.found index)
        × (new ≡ record old { signature = seed.sign_hash index sig_hash }))
      ⊎ (All (λ id. old.parent.id ≢ id) ids × (new ≡ old))

  -- Why an identifier is refused: no input has it, or there is no key for the input's address.
  abbrev pub Refused : S → List Input → WalletError → ElementId → Type 0
  Refused store ins e id =
      ((e ≡ no_input) × (address_of ins id ≡ none))
      ⊎ ((addr : Address) × (address_of ins id ≡ some addr)
          × (((e ≡ no_key) × (ops.address_index store addr ≡ Lookup.unknown))
              ⊎ ((e ≡ store_failed) × (ops.address_index store addr ≡ Lookup.failed))))

  -- The input that inputWithID finds gets the signature.
  abbrev Updated : ElementId → Input → Signature → Input → Input → Type 0
  Updated id in' sig old new =
      ((old.parent.id ≡ id) × (old ≡ in') × (new ≡ record old { signature = sig }))
      ⊎ ((old.parent.id ≢ id) × (new ≡ old))

  same_inputs :
      (id : ElementId) (in' : Input) (sig : Signature) (ins : List Input)
      → All (λ k. id ≢ k) (input_ids ins)
      → Pairs (Updated id in' sig) ins ins
  unfolding input_ids
  same_inputs id in' sig [] none_of = tt
  same_inputs id in' sig (x ∷ xs) none_of =
      (inr (λ e. none_of.0 (sym e), refl), same_inputs id in' sig xs none_of.1)

  set_signature-Updated :
      (ins : List Input) (id : ElementId) (in' : Input) (sig : Signature)
      → input_with_id ops crypto seed ins id ≡ some in'
      → Distinct (input_ids ins)
      → Pairs (Updated id in' sig) ins (set_signature ops crypto seed ins id sig)
  unfolding input_with_id set_signature input_ids
  set_signature-Updated [] id in' sig found distinct = tt
  set_signature-Updated (x ∷ xs) id in' sig found distinct =
      elim (Bool-cases (element_id_eq x.parent.id id)) [
        | inl same ↦
            let at = (element_id_eq_iff x.parent.id id).0 same in
            let e = rw same at found in
            rw same (
              inl (at, cc e, refl),
              same_inputs id in' sig xs
                  (subst (λ k. All (λ y. k ≢ y) (input_ids xs)) at distinct.0),
            )
        | inr other ↦ rw other (
          inr (λ at. absurd (cc (sym ((element_id_eq_iff x.parent.id id).1 at) ∙ other)), refl),
          set_signature-Updated xs id in' sig (rw other at found) distinct.1,
        )
      ]

  input_ids-set_signature :
      (ins : List Input) (id : ElementId) (sig : Signature)
      → input_ids (set_signature ops crypto seed ins id sig) ≡ input_ids ins
  unfolding set_signature input_ids
  input_ids-set_signature [] id sig = refl
  input_ids-set_signature (x ∷ xs) id sig = elim (Bool-cases (element_id_eq x.parent.id id)) [
    | inl e ↦ rw e refl
    | inr e ↦ rw e (ap (λ ks. x.parent.id ∷ ks) (input_ids-set_signature xs id sig))
  ]

  address_of-set_signature :
      (ins : List Input) (id : ElementId) (sig : Signature) (k : ElementId)
      → address_of (set_signature ops crypto seed ins id sig) k ≡ address_of ins k
  unfolding set_signature
  address_of-set_signature [] id sig k = refl
  address_of-set_signature (x ∷ xs) id sig k = elim (Bool-cases (element_id_eq x.parent.id id)) [
    | inl e ↦ rw e refl
    | inr e ↦ elim (Bool-cases (element_id_eq x.parent.id k)) [
      | inl f ↦ rw (e, f, address_of) refl
      | inr f ↦ rw (e, f, address_of) (address_of-set_signature xs id sig k)
    ]
  ]

  input_with_id-none :
      (ins : List Input) (id : ElementId)
      → input_with_id ops crypto seed ins id ≡ none
      → address_of ins id ≡ none
  unfolding input_with_id
  input_with_id-none [] id e = refl
  input_with_id-none (x ∷ xs) id e = elim (Bool-cases (element_id_eq x.parent.id id)) [
    | inl same ↦ let e' = rw same at e in absurd (cc e')
    | inr other ↦ rw (other, address_of) (input_with_id-none xs id (rw other at e))
  ]

  input_with_id-some :
      (ins : List Input) (id : ElementId) (in' : Input)
      → input_with_id ops crypto seed ins id ≡ some in'
      → address_of ins id ≡ some in'.parent.address
  unfolding input_with_id
  input_with_id-some [] id in' e = absurd (cc e)
  input_with_id-some (x ∷ xs) id in' e = elim (Bool-cases (element_id_eq x.parent.id id)) [
    | inl same ↦
        let found : x ≡ in' = cc (rw same at e) in
        rw (same, address_of) (ap (λ (i : Input). some i.parent.address) found)
    | inr other ↦ rw (other, address_of) (input_with_id-some xs id in' (rw other at e))
  ]

  -- What one signature and those of the other identifiers do together.
  both :
      (store : S) (sig_hash : Hash256) (id : ElementId) (ids : List ElementId) (in' : Input)
      (index : ℕ)
      → ops.address_index store in'.parent.address ≡ Lookup.found index
      → (old mid new : Input) → Updated id in' (seed.sign_hash index sig_hash) old mid
      → SignedFor store sig_hash ids mid new
      → SignedFor store sig_hash (id ∷ ids) old new
  both store sig_hash id ids in' index l old mid new (inr (differs, e)) signed = elim signed [
    | inl (listed, i, li, s) ↦
        let parent : mid.parent ≡ old.parent = ap (λ (o : Input). o.parent) e in
        inl (
          inr (subst (λ (o : Input). AnyId (λ k. o.parent.id ≡ k) ids) e listed),
          i,
          ap (λ (p : OutputElement). ops.address_index store p.address) (sym parent) ∙ li,
          s
              ∙ ap
                  (λ (o : Input).
                    let t : Input = record o { signature = seed.sign_hash i sig_hash } in t)
                  e,
        )
    | inr (absent, s) ↦
        inr ((differs, subst (λ (o : Input). All (λ k. o.parent.id ≢ k) ids) e absent), s ∙ e)
  ]
  both store sig_hash id ids in' index l old mid new (inl (at, is_in, e)) signed = elim signed [
    | inl (listed, i, li, s) ↦
        let parent : mid.parent ≡ old.parent = ap (λ (o : Input). o.parent) e in
        inl (
          inl at,
          i,
          ap (λ (p : OutputElement). ops.address_index store p.address) (sym parent) ∙ li,
          s
              ∙ ap
                  (λ (o : Input).
                    let t : Input = record o { signature = seed.sign_hash i sig_hash } in t)
                  e,
        )
    | inr (absent, s) ↦ inl (
      inl at,
      index,
      ap (λ (o : Input). ops.address_index store o.parent.address) is_in ∙ l,
      s ∙ e,
    )
  ]

  unsigned :
      (store : S) (sig_hash : Hash256) (ins : List Input)
      → Pairs (SignedFor store sig_hash []) ins ins
  unsigned store sig_hash [] = tt
  unsigned store sig_hash (x ∷ xs) = (inr (tt, refl), unsigned store sig_hash xs)

  sign_ids-SignedFor :
      (store : S) (sig_hash : Hash256) (txn : Transaction) (ids : List ElementId)
      → Distinct (input_ids txn.inputs)
      → ((ins : List Input) × (sign_ids ops crypto seed store sig_hash txn ids
            ≡ (ok tt, record txn { inputs = ins }))
          × Pairs (SignedFor store sig_hash ids) txn.inputs ins)
        ⊎ ((e : WalletError) × ((sign_ids ops crypto seed store sig_hash txn ids).0 ≡ err e)
            × AnyId (Refused store txn.inputs e) ids)
  unfolding sign_ids
  sign_ids-SignedFor store sig_hash txn [] distinct =
      inl (txn.inputs, refl, unsigned store sig_hash txn.inputs)
  sign_ids-SignedFor store sig_hash txn (id ∷ ids) distinct =
      elim (Option-cases (input_with_id ops crypto seed txn.inputs id)) [
        | inl e ↦
            inr (
              no_input,
              rw (e, sign_ids) refl,
              inl (inl (refl, input_with_id-none txn.inputs id e)),
            )
        | inr (in', e) ↦
            let addr = input_with_id-some txn.inputs id in' e in
            elim (Lookup-cases (ops.address_index store in'.parent.address)) [
              | inr (inl l) ↦ inr (
                no_key,
                rw (e, l, sign_ids) refl,
                inl (inr (in'.parent.address, addr, inl (refl, l))),
              )
              | inr (inr l) ↦ inr (
                store_failed,
                rw (e, l, sign_ids) refl,
                inl (inr (in'.parent.address, addr, inr (refl, l))),
              )
              | inl (index, l) ↦
                  let sig = seed.sign_hash index sig_hash in
                  let mid = set_signature ops crypto seed txn.inputs id sig in
                  elim (sign_ids-SignedFor store sig_hash (record txn { inputs = mid }) ids
                    (subst Distinct (sym (input_ids-set_signature txn.inputs id sig)) distinct)) [
                      | inl (ins, done, signed) ↦ inl (
                        ins,
                        rw (e, l, sign_ids) done,
                        Pairs-trans (Updated id in' sig) (SignedFor store sig_hash ids)
                            (SignedFor store sig_hash (id ∷ ids))
                            (both store sig_hash id ids in' index l) txn.inputs mid ins
                            (set_signature-Updated txn.inputs id in' sig e distinct) signed,
                      )
                      | inr (x, failed, why) ↦ inr (
                        x,
                        rw (e, l, sign_ids) failed,
                        inr (
                            AnyId-map (Refused store mid x) (Refused store txn.inputs x) ids
                              (λ k. rw (address_of-set_signature txn.inputs id sig k) (λ r. r))
                              why),
                      )
                    ]
            ]
      ]

  -- SignTransaction with a list of identifiers, for a transaction whose inputs have different
  -- identifiers. Either it returns no error, and of the transaction exactly the inputs with those
  -- identifiers are changed: each has the signature of the transaction's signature hash by the key
  -- of its address. Or it returns an error: an identifier has no input, or the store has no key for
  -- its address.
  pub sign_transaction-SignedFor :
      (tb : TransactionBuilder S) (txn : Transaction) (id : ElementId) (ids : List ElementId)
      → Distinct (input_ids txn.inputs)
      → ((ins : List Input) × (sign_transaction ops crypto seed tb txn (id ∷ ids)
            ≡ (ok tt, record txn { inputs = ins }))
          × Pairs (SignedFor tb.store (input_sig_hash crypto txn) (id ∷ ids)) txn.inputs ins)
        ⊎ ((e : WalletError) × ((sign_transaction ops crypto seed tb txn (id ∷ ids)).0 ≡ err e)
            × AnyId (Refused tb.store txn.inputs e) (id ∷ ids))
  unfolding sign_transaction
  sign_transaction-SignedFor tb txn id ids distinct =
      sign_ids-SignedFor tb.store (input_sig_hash crypto txn) txn (id ∷ ids) distinct
