-- ===== src/Consensus/Validation/Rules.antt =====
-- What ValidateTransaction accepts.
use sunyata.Common.{
  ℕ, ◌≤◌, ◌≡◌, ◌≢◌, ◌↔◌, ◌⊎◌, refl, ◌∙◌, ap, inl, inr, arith, true, false, List, [], ◌∷◌, All,
  Bool-cases, ltb, ◌==◌, bytes_eq, bytes_eq_sound, bytes_eq_refl,
}
use sunyata.Common.Outcome.{ok, err, panic, ◌>>◌}
use sunyata.Common.Word.{add_u64}
use sunyata.Types.{Crypto, Hash256, Input, Transaction, ephemeral_leaf_index}
use sunyata.Identity.{address}
use sunyata.Merkle.Accumulator.{contains_unspent, contains_spent}
use sunyata.Consensus.Errors.{
  Error, Result, overflow, zero_value, unequal, immature, proof_double_spends, not_present,
  incorrect_pubkey, invalid_signature,
}
use sunyata.Consensus.State.{State, input_sig_hash}
use sunyata.Consensus.Validation.{
  validate_time_locks, validate_state_proofs, check_inputs, validate_spend_policies,
  validate_transaction,
}
use sunyata.Consensus.Validation.Value.{HasCurrencies, IsBalanced, currency_cases, balance_cases}

-- A check that ends, with an error exactly when the rule is broken.
abbrev pub Decides : Result (Unit {0}) → Type 0 → Type 0
Decides r P = ((r ≡ ok tt) × P) ⊎ ((e : Error) × (r ≡ err e) × (¬ P))

-- Checks that run one after the other decide both rules.
pub both-Decides :
    {P Q : Type 0} (r s : Result (Unit {0})) → Decides r P → Decides s Q → Decides (r >> s) (P × Q)
both-Decides r s (inl (e, p)) (inl (e', q)) = inl (rw e e', (p, q))
both-Decides r s (inl (e, p)) (inr (x, e', n)) = inr (x, rw e e', λ both. n both.1)
both-Decides r s (inr (x, e, n)) d = inr (x, rw e refl, λ both. n both.0)

-- A check that goes on after a rule that holds.
next-Decides :
    {P Q : Type 0} {whole rest : Result (Unit {0})}
    → whole ≡ rest
    → P
    → Decides rest Q
    → Decides whole (P × Q)
next-Decides e p (inl (d, q)) = inl (e ∙ d, (p, q))
next-Decides e p (inr (x, d, n)) = inr (x, e ∙ d, λ both. n both.1)

pub matured-Decides :
    (block_height : ℕ) (ins : List Input)
    → Decides
        (validate_time_locks block_height ins)
        (All (λ (in' : Input). in'.parent.maturity_height ≤ block_height) ins)
unfolding validate_time_locks
matured-Decides block_height [] = inl (refl, tt)
matured-Decides block_height (in' ∷ ins) =
    elim (Bool-cases (ltb block_height in'.parent.maturity_height)) [
      | inl e ↦ inr (immature, rw e refl, λ all. absurd (ground (arith, e, all.0)))
      | inr e ↦ next-Decides (rw e refl) (ground arith) (matured-Decides block_height ins)
    ]

module _ (crypto : Crypto) where
  -- The key of an input has the address of the output that it spends, and signed the hash.
  abbrev pub Authorised : Hash256 → Input → Type 0
  Authorised sig_hash in' =
      (address crypto in'.public_key ≡ in'.parent.address)
      × (crypto.verify in'.public_key sig_hash in'.signature ≡ true)

  -- An input is of an element that the accumulator holds unspent, or an ephemeral one.
  abbrev pub Present : State → Input → Type 0
  Present s in' =
      (in'.parent.leaf_index ≡ ephemeral_leaf_index)
      ⊎ (contains_unspent crypto s.elements in'.parent ≡ true)

  pub state_proofs-Decides :
      (s : State) (ins : List Input)
      → Decides (validate_state_proofs crypto s ins) (All (Present s) ins)
  unfolding validate_state_proofs
  state_proofs-Decides s [] = inl (refl, tt)
  state_proofs-Decides s (in' ∷ ins) =
      elim (Bool-cases (in'.parent.leaf_index == ephemeral_leaf_index)) [
        | inl e ↦ next-Decides (rw e refl) (inl (ground (arith, e))) (state_proofs-Decides s ins)
        | inr e ↦ elim (Bool-cases (contains_unspent crypto s.elements in'.parent)) [
          | inl c ↦ next-Decides (rw (e, c) refl) (inr c) (state_proofs-Decides s ins)
          | inr c ↦ elim (Bool-cases (contains_spent crypto s.elements in'.parent)) [
            | inl d ↦ inr (proof_double_spends, rw (e, c, d) refl, λ all. missing e c all.0)
            | inr d ↦ inr (not_present, rw (e, c, d) refl, λ all. missing e c all.0)
          ]
        ]
      ]
    where
      missing :
          (in'.parent.leaf_index == ephemeral_leaf_index) ≡ false
          → contains_unspent crypto s.elements in'.parent ≡ false
          → ¬ (Present s in')
      missing e c (inl same) = ground (arith, e, same)
      missing e c (inr held) = cc

  pub inputs-Decides :
      (sig_hash : Hash256) (ins : List Input)
      → Decides (check_inputs crypto sig_hash ins) (All (Authorised sig_hash) ins)
  unfolding check_inputs
  inputs-Decides sig_hash [] = inl (refl, tt)
  inputs-Decides sig_hash (in' ∷ ins) =
      elim (Bool-cases (bytes_eq (address crypto in'.public_key) in'.parent.address)) [
        | inr e ↦ inr (
          incorrect_pubkey,
          rw e refl,
          λ all. absurd (
              cc (
                e,
                ap (bytes_eq (address crypto in'.public_key)) all.0.0,
                bytes_eq_refl (address crypto in'.public_key),
              )),
        )
        | inl e ↦ elim (Bool-cases (crypto.verify in'.public_key sig_hash in'.signature)) [
          | inr v ↦ inr (invalid_signature, rw (e, v) refl, λ all. absurd (cc (v, all.0.1)))
          | inl v ↦
              next-Decides (rw (e, v) refl) (bytes_eq_sound _ _ e, v) (inputs-Decides sig_hash ins)
        ]
      ]

  -- What a transaction must satisfy against a state.
  pub record IsAccepted (s : State) (txn : Transaction) : Type 0 where
    pub present : All (Present s) txn.inputs
    pub balanced : IsBalanced txn
    pub matured :
        All (λ (in' : Input). in'.parent.maturity_height ≤ add_u64 s.index.height 1) txn.inputs
    pub authorised : All (Authorised (input_sig_hash crypto txn)) txn.inputs

  validate_transaction-Decides :
      (s : State) (txn : Transaction)
      → HasCurrencies txn
      → Decides (validate_transaction crypto s txn) (IsAccepted s txn)
  unfolding validate_transaction
  validate_transaction-Decides s txn fits = elim (state_proofs-Decides s txn.inputs) [
    | inr (x, e, n) ↦ inr (x, rw e refl, λ a. n a.present)
    | inl (e, present) ↦ elim (currency_cases txn fits) [
      | inr (inl (c, big)) ↦
          inr (overflow, rw (e, c) refl, λ a. absurd (omega (arith, a.balanced.in_range)))
      | inr (inr (c, zero_left)) ↦
          inr (zero_value, rw (e, c) refl, λ a. zero_left a.balanced.no_zero)
      | inl (c, nonzero, small) ↦ elim (matured-Decides (add_u64 s.index.height 1) txn.inputs) [
        | inr (x, t, n) ↦ inr (x, rw (e, c, t) refl, λ a. n a.matured)
        | inl (t, matured) ↦ elim (balance_cases txn fits small) [
          | inr (b, differ) ↦ inr (unequal, rw (e, c, t, b) refl, λ a. differ a.balanced.conserved)
          | inl (b, same) ↦ elim (spend-Decides) [
            | inr (x, p, n) ↦ inr (x, rw (e, c, t, b, p) refl, λ a. n a.authorised)
            | inl (p, authorised) ↦ inl (
              rw (e, c, t, b, p) refl,
              record {
                present = present;
                balanced = record { no_zero = nonzero; in_range = small; conserved = same };
                matured = matured;
                authorised = authorised;
              },
            )
          ]
        ]
      ]
    ]
  ]
    where
      spend-Decides :
          Decides
            (validate_spend_policies crypto txn)
            (All (Authorised (input_sig_hash crypto txn)) txn.inputs)
      spend-Decides =
          unfold validate_spend_policies in inputs-Decides (input_sig_hash crypto txn) txn.inputs

  -- ValidateTransaction accepts exactly the transactions whose inputs are in the accumulator
  -- unspent, or ephemeral, and matured at the next height, each with the public key of its address
  -- and a signature that verifies, and whose amounts balance: no zero output, a sum below 2^128,
  -- and inputs that equal the outputs and the fee. It returns an error otherwise, and never
  -- panics.
  pub validate_transaction_iff :
      (s : State) (txn : Transaction)
      → HasCurrencies txn
      → ((validate_transaction crypto s txn ≡ ok tt) ↔ IsAccepted s txn)
        × (validate_transaction crypto s txn ≢ panic)
  validate_transaction_iff s txn fits = elim (validate_transaction-Decides s txn fits) [
    | inl (e, a) ↦ ((λ _. a, λ _. e), λ p. cc)
    | inr (x, e, n) ↦ ((λ p. absurd (cc), λ a. absurd (n a)), λ p. cc)
  ]
