-- ===== src/Consensus/Blocks/Ephemeral.antt =====
-- What validateEphemeralOutputs accepts.
use native.Mathlib.Nat.{zero-add}
use sunyata.Common.{
  ℕ, suc, ◌+◌, ◌^◌, ◌<◌, ◌≡◌, ◌⊎◌, refl, sym, inl, inr, arith, true, false, some, List, [], ◌∷◌,
  All, All-map, length, get_elem?, Bool-cases, Option-cases, bytes_eq, bytes_eq_sound, subst,
}
use sunyata.Common.Outcome.{ok, >>=-eq-ok}
use sunyata.Common.Word.{add_u64}
use sunyata.Currency.{equals}
use sunyata.Types.{Crypto, ElementId, Output, Input, Transaction, element_id_eq}
use sunyata.Identity.{output_id, transaction_id}
use sunyata.Consensus.Validation.{is_ephemeral}
use sunyata.Consensus.Blocks.{
  Available, available_get, available_delete, available_put, any_ephemeral_input, any_ephemeral,
  claim, claim_inputs, offer_outputs, claim_all, validate_ephemeral_outputs,
}
use sunyata.Consensus.Blocks.DoubleSpends.{element_id_eq_iff}

module _ (crypto : Crypto) where
  -- `id` names the output `out` of the transaction.
  abbrev pub OutputOf : Transaction → ElementId → Output → Type 0
  OutputOf txn id out =
      (i : ℕ) × (get_elem? txn.outputs i ≡ some out) × (id ≡ output_id crypto txn i)

  -- `id` names the output `out` of one of the transactions.
  abbrev pub Offered : List Transaction → ElementId → Output → Type 0
  Offered [] id out = ⊥
  Offered (txn ∷ seen) id out = OutputOf txn id out ⊎ Offered seen id out

  -- An ephemeral input spends an output of one of the transactions, with its value and address.
  abbrev pub Claims : List Transaction → Input → Type 0
  Claims seen in' =
      is_ephemeral in' ≡ true
      → (out : Output) × Offered seen in'.parent.id out
        × (equals in'.parent.value out.value ≡ true)
        × (in'.parent.address ≡ out.address)

  -- Each transaction claims outputs of those before it.
  abbrev pub InOrder : List Transaction → List Transaction → Type 0
  InOrder seen [] = Unit
  InOrder seen (txn ∷ txns) = All (Claims seen) txn.inputs × InOrder (txn ∷ seen) txns

  abbrev Known : List Transaction → Available → Type 0
  Known seen = All (λ entry. Offered seen entry.0 entry.1)

  available_get-Known :
      (seen : List Transaction) (id : ElementId) (m : Available) (out : Output)
      → Known seen m
      → available_get id m ≡ some out
      → Offered seen id out
  unfolding available_get
  available_get-Known seen id [] out known e = absurd (cc)
  available_get-Known seen id ((k, o) ∷ m) out known e = elim (Bool-cases (element_id_eq k id)) [
    | inl same ↦
        let found : o ≡ out = cc (rw same at e) in
        subst (λ o. Offered seen id o) found
          (subst (λ k. Offered seen k o) ((element_id_eq_iff k id).0 same) known.0)
    | inr other ↦ available_get-Known seen id m out known.1 (rw other at e)
  ]

  available_delete-Known :
      (seen : List Transaction) (id : ElementId) (m : Available)
      → Known seen m
      → Known seen (available_delete id m)
  unfolding available_delete
  available_delete-Known seen id [] known = tt
  available_delete-Known seen id ((k, o) ∷ m) known = elim (Bool-cases (element_id_eq k id)) [
    | inl same ↦ rw same (available_delete-Known seen id m known.1)
    | inr other ↦ rw other (known.0, available_delete-Known seen id m known.1)
  ]

  claim-Claims :
      (seen : List Transaction) (m m' : Available) (in' : Input)
      → Known seen m
      → claim m in' ≡ ok m'
      → Claims seen in' × Known seen m'
  unfolding claim
  claim-Claims seen m m' in' known e = elim (Option-cases (available_get in'.parent.id m)) [
    | inl missing ↦ absurd (cc (rw (missing, claim) at e))
    | inr (out, found) ↦ elim (Bool-cases (equals in'.parent.value out.value)) [
      | inr v ↦ absurd (cc (rw (found, v, claim) at e))
      | inl v ↦ elim (Bool-cases (bytes_eq in'.parent.address out.address)) [
        | inr a ↦ absurd (cc (rw (found, v, a, claim) at e))
        | inl a ↦
            let left : available_delete in'.parent.id m ≡ m' = cc (rw (found, v, a, claim) at e) in
            (
              λ _. (
                out,
                available_get-Known seen in'.parent.id m out known found,
                v,
                bytes_eq_sound _ _ a,
              ),
              subst (Known seen) left (available_delete-Known seen in'.parent.id m known),
            )
      ]
    ]
  ]

  claim_inputs-Claims :
      (seen : List Transaction) (m m' : Available) (ins : List Input)
      → Known seen m
      → claim_inputs m ins ≡ ok m'
      → All (Claims seen) ins × Known seen m'
  unfolding claim_inputs
  claim_inputs-Claims seen m m' [] known e =
      let left : m ≡ m' = cc in (tt, subst (Known seen) left known)
  claim_inputs-Claims seen m m' (in' ∷ ins) known e = elim (Bool-cases (is_ephemeral in')) [
    | inr other ↦
        let rest = claim_inputs-Claims seen m m' ins known (rw other at e) in
        ((λ same. absurd (cc (other, same)), rest.0), rest.1)
    | inl same ↦
        let (m1, done, e') = >>=-eq-ok (claim m in') (λ a. claim_inputs a ins) (rw same at e) in
        let first = claim-Claims seen m m1 in' known done in
        let rest = claim_inputs-Claims seen m1 m' ins first.1 e' in ((first.0, rest.0), rest.1)
  ]

  Known-later :
      (txn : Transaction) (seen : List Transaction) (m : Available)
      → Known seen m
      → Known (txn ∷ seen) m
  Known-later txn seen = All-map _ _ (λ _ o. inr o)

  offer_outputs-Known :
      (txn : Transaction) (seen : List Transaction) (index : ℕ) (m : Available) (outs : List Output)
      → ((j : ℕ) (o : Output)
          → get_elem? outs j ≡ some o
          → get_elem? txn.outputs (index + j) ≡ some o)
      → index + length outs < 2 ^ 64
      → Known (txn ∷ seen) m
      → Known (txn ∷ seen) (offer_outputs (transaction_id crypto txn) index m outs)
  unfolding offer_outputs available_put output_id
  offer_outputs-Known txn seen index m [] here small known = known
  offer_outputs-Known txn seen index m (out ∷ outs) here small known = rw next (
      offer_outputs-Known txn seen (index + 1) _ outs
        (λ j o e. subst (λ k. get_elem? txn.outputs k ≡ some o) (omega arith) (here (suc j) o e))
        (omega arith)
        (
          inl (
            index,
            subst (λ k. get_elem? txn.outputs k ≡ some out) (omega arith) (here 0 out refl),
            refl,
          ),
          available_delete-Known (txn ∷ seen) _ m known,
        ))
    where
      next : add_u64 index 1 ≡ index + 1
      next = omega (arith, small)

  claim_all-InOrder :
      (seen : List Transaction) (m : Available) (txns : List Transaction)
      → All (λ (txn : Transaction). length txn.outputs < 2 ^ 64) txns
      → Known seen m
      → claim_all crypto m txns ≡ ok tt
      → InOrder seen txns
  unfolding claim_all
  claim_all-InOrder seen m [] small known e = tt
  claim_all-InOrder seen m (txn ∷ txns) small known e =
      let (m1, done, e') = >>=-eq-ok (claim_inputs m txn.inputs) _ e in
      let claimed = claim_inputs-Claims seen m m1 txn.inputs known done in
      (
        claimed.0,
        claim_all-InOrder (txn ∷ seen) _ txns small.1
            (offer_outputs-Known txn seen 0 m1 txn.outputs
              (λ j o e. subst (λ k. get_elem? txn.outputs k ≡ some o) (sym (zero-add j)) e)
              (omega (arith, small.0)) (Known-later txn seen m1 claimed.1))
            e',
      )

  none_claimed :
      (seen : List Transaction) (ins : List Input)
      → any_ephemeral_input ins ≡ false
      → All (Claims seen) ins
  unfolding any_ephemeral_input
  none_claimed seen [] e = tt
  none_claimed seen (in' ∷ ins) e = elim (Bool-cases (is_ephemeral in')) [
    | inl same ↦ absurd (cc (rw same at e))
    | inr other ↦ (λ same. absurd (cc (other, same)), none_claimed seen ins (rw other at e))
  ]

  none_ordered : (seen txns : List Transaction) → any_ephemeral txns ≡ false → InOrder seen txns
  unfolding any_ephemeral
  none_ordered seen [] e = tt
  none_ordered seen (txn ∷ txns) e = elim (Bool-cases (any_ephemeral_input txn.inputs)) [
    | inl same ↦ absurd (cc (rw same at e))
    | inr other ↦
        (none_claimed seen txn.inputs other, none_ordered (txn ∷ seen) txns (rw other at e))
  ]

  -- When validateEphemeralOutputs accepts a list of transactions, each with fewer than 2^64
  -- outputs, every ephemeral input in it spends an output of an earlier transaction of the list,
  -- named by its transaction and position, and has the value and address of that output.
  pub validate_ephemeral_outputs-InOrder :
      (txns : List Transaction)
      → All (λ (txn : Transaction). length txn.outputs < 2 ^ 64) txns
      → validate_ephemeral_outputs crypto txns ≡ ok tt
      → InOrder [] txns
  unfolding validate_ephemeral_outputs
  validate_ephemeral_outputs-InOrder txns small e = elim (Bool-cases (any_ephemeral txns)) [
    | inl some_claimed ↦ claim_all-InOrder [] [] txns small tt (rw some_claimed at e)
    | inr none_claimed' ↦ none_ordered [] txns none_claimed'
  ]
