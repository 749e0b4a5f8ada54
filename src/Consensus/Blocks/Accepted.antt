-- ===== src/Consensus/Blocks/Accepted.antt =====
-- What ValidateBlock accepts.
use sunyata.Common.{
  ◌^◌, ◌≤◌, ◌<◌, ◌≡◌, ◌≢◌, refl, inl, inr, Bool, true, false, not, some, Option-cases, List, [],
  ◌∷◌, All, length, bytes_eq_sound, ==_iff, ltb-false→le, subst,
}
use sunyata.Common.Outcome.{ok, ◌>>◌, fail_if, >>=-eq-ok}
use sunyata.Common.Word.{add_u64}
use sunyata.Work.{Work, work_required_for_hash}
use sunyata.Work
use sunyata.Currency.{less}
use sunyata.Types.{Crypto, Hash256, Time, Transaction, BlockHeader, Block}
use sunyata.Identity.{header_id}
use sunyata.Consensus.Errors.{Error, Result}
use sunyata.Consensus.State.{State, block_weight, max_block_weight, commitment}
use sunyata.Consensus.Validation.{
  insufficient, median_timestamp, validate_header, validate_transaction,
}
use sunyata.Consensus.Validation.Value.{HasCurrencies}
use sunyata.Consensus.Validation.Rules.{IsAccepted, validate_transaction_iff}
use sunyata.Consensus.Blocks.{
  validate_ephemeral_outputs, no_double_spends, validate_each, validate_transaction_set,
  validate_block,
}
use sunyata.Consensus.Blocks.DoubleSpends.{Distinct, parent_ids, all_inputs, no_double_spends_iff}
use sunyata.Consensus.Blocks.Ephemeral.{InOrder, validate_ephemeral_outputs-InOrder}

-- A check that was passed.
fail_if-ok : (b : Bool) (e : Error) → fail_if b e ≡ ok tt → b ≡ false
fail_if-ok true e h = absurd (cc)
fail_if-ok false e h = refl

-- The first of two checks passed, and so did the second.
>>-ok : (m k : Result (Unit {0})) → (m >> k) ≡ ok tt → (m ≡ ok tt) × (k ≡ ok tt)
>>-ok m k h = let (_, e, e') = >>=-eq-ok m (λ _. k) h in (e, e')

not-false : (b : Bool) → not b ≡ false → b ≡ true
not-false true h = refl
not-false false h = absurd (cc)

module _ (crypto : Crypto) where
  -- A header that extends the chain of a state.
  pub record IsNext (s : State) (h : BlockHeader) : Type 0 where
    pub height_lem : h.height ≡ add_u64 s.index.height 1
    pub parent_lem : h.parent_id ≡ s.index.id
    pub work_lem :
        (w : Work) × (work_required_for_hash (header_id crypto h) ≡ some w)
        × (Work.cmp w s.difficulty ≢ less)
    pub time_lem : (t : Time) × (median_timestamp s ≡ ok t) × (t ≤ h.timestamp)

  insufficient-false :
      (id : Hash256) (d : Work)
      → insufficient id d ≡ ok false
      → (w : Work) × (work_required_for_hash id ≡ some w) × (Work.cmp w d ≢ less)
  unfolding insufficient
  insufficient-false id d h = elim (Option-cases (work_required_for_hash id)) [
    | inl e ↦ absurd (cc (rw (e, insufficient) at h))
    | inr (w, e) ↦ (w, e, λ low. absurd (cc (rw (e, low, insufficient) at h)))
  ]

  validate_header-IsNext :
      (s : State) (h : BlockHeader) → validate_header crypto s h ≡ ok tt → IsNext s h
  unfolding validate_header
  validate_header-IsNext s h accepted =
      let (height, r1) = >>-ok _ _ accepted in
      let (parent, r2) = >>-ok _ _ r1 in
      let (weak, w, r3) = >>=-eq-ok (insufficient (header_id crypto h) s.difficulty) _ r2 in
      let (strong, r4) = >>-ok _ _ r3 in
      let (median, t, r5) = >>=-eq-ok (median_timestamp s) _ r4 in
      record {
        height_lem = (==_iff _ _).0 (not-false _ (fail_if-ok _ _ height));
        parent_lem = bytes_eq_sound _ _ (not-false _ (fail_if-ok _ _ parent));
        work_lem = insufficient-false (header_id crypto h) s.difficulty (
            subst (λ b. insufficient (header_id crypto h) s.difficulty ≡ ok b)
              (fail_if-ok weak _ strong) w);
        time_lem = (median, t, ltb-false→le _ _ (fail_if-ok _ _ r5));
      }

  validate_each-IsAccepted :
      (s : State) (txns : List Transaction)
      → All HasCurrencies txns
      → validate_each crypto s txns ≡ ok tt
      → All (IsAccepted crypto s) txns
  unfolding validate_each
  validate_each-IsAccepted s [] fits e = tt
  validate_each-IsAccepted s (txn ∷ txns) fits e =
      let (first, rest) =
        >>-ok (validate_transaction crypto s txn) (validate_each crypto s txns) e in
      (
        (validate_transaction_iff crypto s txn fits.0).0.0 first,
        validate_each-IsAccepted s txns fits.1 rest,
      )

  -- What a block must satisfy against the state of its parent.
  pub record IsValid (s : State) (b : Block) : Type 0 where
    pub next : IsNext s b.header
    pub committed : commitment crypto s b.header.miner_address b.transactions ≡ b.header.commitment
    pub light : block_weight b.transactions ≤ max_block_weight
    pub in_order : InOrder crypto [] b.transactions
    pub distinct : Distinct (parent_ids (all_inputs b.transactions))
    pub accepted : All (IsAccepted crypto s) b.transactions

  -- A block that ValidateBlock accepts has the next height and the parent of the state, the work
  -- of its identifier is not below the difficulty, its timestamp is not before the median, its
  -- header commits to the state, the miner and the transactions, it is not overweight, its
  -- ephemeral inputs spend outputs of earlier transactions, no element is spent twice, and every
  -- transaction keeps the rules of ValidateTransaction. Each transaction has fewer than 2^64
  -- outputs.
  pub validate_block-IsValid :
      (s : State) (b : Block)
      → All HasCurrencies b.transactions
      → All (λ (txn : Transaction). length txn.outputs < 2 ^ 64) b.transactions
      → validate_block crypto s b ≡ ok tt
      → IsValid s b
  unfolding validate_block validate_transaction_set
  validate_block-IsValid s b fits small e =
      let (header, r1) = >>-ok (validate_header crypto s b.header) _ e in
      let (commit, r2) = >>-ok _ _ r1 in
      let (weight, r3) = >>-ok _ _ r2 in
      let (claims, r4) = >>-ok (validate_ephemeral_outputs crypto b.transactions) _ r3 in
      let (spends, each) = >>-ok (no_double_spends b.transactions) _ r4 in
      record {
        next = validate_header-IsNext s b.header header;
        committed = bytes_eq_sound _ _ (not-false _ (fail_if-ok _ _ commit));
        light = ltb-false→le _ _ (fail_if-ok _ _ weight);
        in_order = validate_ephemeral_outputs-InOrder crypto b.transactions small claims;
        distinct = (no_double_spends_iff b.transactions).0.0 spends;
        accepted = validate_each-IsAccepted s b.transactions fits each;
      }
