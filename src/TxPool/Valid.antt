-- ===== src/TxPool/Valid.antt =====
-- Every transaction of the pool is valid in the pool's state.
use sunyata.Common.{
  ◌≡◌, subst, refl, sym, ◌∙◌, inl, inr, Bool, true, false, bytes_eq, bytes_eq_refl, Bool-cases,
  Option-cases, some, List, [], ◌∷◌, All, All-map, if◌then◌else◌,
}
use sunyata.Common.Outcome.{ok, err, panic, Outcome-cases, ok_eq}
use sunyata.Types.{Crypto, Hash256, Transaction, Block}
use sunyata.Identity.{transaction_id}
use sunyata.Merkle.Update.{>>=-eq-some}
use sunyata.Consensus.Errors.{Result}
use sunyata.Consensus.State.{State}
use sunyata.Consensus.Validation.{validate_transaction}
use sunyata.Consensus.Blocks.{validate_transaction_set}
use sunyata.Consensus.Apply.{ApplyUpdate, apply_transaction_proofs}
use sunyata.TxPool.{
  Transactions, Pool, get_txn, delete_txn, put_txn, mine_inputs, is_ok, claim_ephemeral,
  pool_outputs, refresh, validate_pool_transaction, add_transaction, add_each, add_transaction_set,
  delete_confirmed, apply_each, process_apply,
}

some_eq : {A : Type 0} {x y : A} → some x ≡ some y → x ≡ y
some_eq e = cc e

-- No transaction has the identifier.
abbrev pub Absent : Hash256 → Transactions → Type 0
Absent id txns = All (λ (entry : Hash256 × Transaction). bytes_eq entry.0 id ≡ false) txns

delete_txn-All :
    (P : Hash256 × Transaction → Type 0) (txns : Transactions) (id : Hash256)
    → All P txns
    → All P (delete_txn txns id)
unfolding delete_txn
delete_txn-All P [] id all = tt
delete_txn-All P ((id', txn) ∷ txns) id all = elim (Bool-cases (bytes_eq id' id)) [
  | inl e ↦ rw e (delete_txn-All P txns id all.1)
  | inr e ↦ rw e (all.0, delete_txn-All P txns id all.1)
]

get_txn-put_txn :
    (txns : Transactions) (id : Hash256) (txn : Transaction)
    → get_txn (put_txn txns id txn) id ≡ some txn
unfolding get_txn
get_txn-put_txn txns id txn = rw (bytes_eq_refl id) refl

delete_txn-Absent : (txns : Transactions) (id : Hash256) → Absent id (delete_txn txns id)
unfolding delete_txn
delete_txn-Absent [] id = tt
delete_txn-Absent ((id', txn) ∷ txns) id = elim (Bool-cases (bytes_eq id' id)) [
  | inl e ↦ rw e (delete_txn-Absent txns id)
  | inr e ↦ rw e (e, delete_txn-Absent txns id)
]

module _ (crypto : Crypto) where
  delete_confirmed-All :
      (P : Hash256 × Transaction → Type 0) (bs : List Transaction) (txns : Transactions)
      → All P txns
      → All P (delete_confirmed crypto bs txns)
  unfolding delete_confirmed
  delete_confirmed-All P [] txns all = all
  delete_confirmed-All P (b ∷ bs) txns all =
      delete_confirmed-All P bs (delete_txn txns (transaction_id crypto b))
        (delete_txn-All P txns (transaction_id crypto b) all)

  delete_confirmed-Absent :
      (bs : List Transaction) (txns : Transactions)
      → All (λ b. Absent (transaction_id crypto b) (delete_confirmed crypto bs txns)) bs
  unfolding delete_confirmed
  delete_confirmed-Absent [] txns = tt
  delete_confirmed-Absent (b ∷ bs) txns = (
    delete_confirmed-All _ bs (delete_txn txns (transaction_id crypto b))
        (delete_txn-Absent txns (transaction_id crypto b)),
    delete_confirmed-Absent bs (delete_txn txns (transaction_id crypto b)),
  )

  -- Valid in a state.
  abbrev pub ValidIn : State → Transactions → Type 0
  ValidIn s txns =
      All (λ (entry : Hash256 × Transaction). validate_transaction crypto s entry.1 ≡ ok tt) txns

  is_ok-ok :
      (s : State) (txn : Transaction)
      → is_ok (validate_transaction crypto s txn) ≡ true
      → validate_transaction crypto s txn ≡ ok tt
  is_ok-ok s txn e = go (validate_transaction crypto s txn) refl e
    where
      go :
          (r : Result (Unit {0}))
          → validate_transaction crypto s txn ≡ r
          → is_ok r ≡ true
          → validate_transaction crypto s txn ≡ ok tt
      go (ok u) q e' = q
      go (err x) q e' = absurd (cc e')
      go panic q e' = absurd (cc e')

  -- The last lines of the loop: the transaction stays when it is valid.
  kept_valid :
      (s : State) (id : Hash256) (txn : Transaction) (rest : Transactions)
      → ValidIn s rest
      → ValidIn s (if is_ok (validate_transaction crypto s txn) then (id, txn) ∷ rest else rest)
  kept_valid s id txn rest v = elim (Bool-cases (is_ok (validate_transaction crypto s txn))) [
    | inl e ↦ rw e (is_ok-ok s txn e, v)
    | inr e ↦ rw e v
  ]

  kept-Absent :
      (keep : Bool) (id id' : Hash256) (txn : Transaction) (rest : Transactions)
      → bytes_eq id id' ≡ false
      → Absent id' rest
      → Absent id' (if keep then (id, txn) ∷ rest else rest)
  kept-Absent true id id' txn rest e a = (e, a)
  kept-Absent false id id' txn rest e a = a

  -- The loop keeps what is valid after the update, under the identifiers that were there.
  apply_each_lem :
      (au : ApplyUpdate) (txns txns' : Transactions)
      → apply_each crypto au txns ≡ some txns'
      → ValidIn au.state txns' × ((id : Hash256) → Absent id txns → Absent id txns')
  unfolding apply_each
  apply_each_lem au [] txns' e =
      subst (λ t. ValidIn au.state t × ((id : Hash256) → Absent id [] → Absent id t)) (some_eq e)
        (tt, λ id a. a)
  apply_each_lem au ((id, txn) ∷ txns) txns' e =
      let (txn', updated, e') = >>=-eq-some (apply_transaction_proofs crypto au txn) _ e in
      let (rest, kept, e'') = >>=-eq-some (apply_each crypto au txns) _ e' in
      let ih = apply_each_lem au txns rest kept in
      let txn'' : Transaction = record txn' {
        inputs = mine_inputs au.new_output_elements txn'.inputs;
      } in
      subst
        (λ t. ValidIn au.state t × ((id' : Hash256) → Absent id' ((id, txn) ∷ txns) → Absent id' t))
        (some_eq e'')
        (
          kept_valid au.state id txn'' rest ih.0,
          λ id' a.
              kept-Absent (is_ok (validate_transaction crypto au.state txn'')) id id' txn'' rest a.0
                (ih.1 id' a.1),
        )

  Absent-after :
      (bs : List Transaction) (txns txns' : Transactions)
      → ((id : Hash256) → Absent id txns → Absent id txns')
      → All (λ b. Absent (transaction_id crypto b) txns) bs
      → All (λ b. Absent (transaction_id crypto b) txns') bs
  Absent-after bs txns txns' f all = All-map _ _ (λ b a. f (transaction_id crypto b) a) bs all

  -- When ProcessChainApplyUpdate returns, the pool is at the new state, every transaction in it is
  -- valid there, whatever was in the pool before, and no transaction of the block is in it.
  pub process_apply-ValidIn :
      (au : ApplyUpdate) (b : Block) (p p' : Pool)
      → process_apply crypto au b p ≡ some p'
      → (p'.cs ≡ au.state)
        × (p'.prev_cs ≡ p.cs)
        × ValidIn p'.cs p'.txns
        × All (λ txn. Absent (transaction_id crypto txn) p'.txns) b.transactions
  unfolding process_apply
  process_apply-ValidIn au b p p' e =
      let (txns, kept, e') =
        >>=-eq-some (apply_each crypto au (delete_confirmed crypto b.transactions p.txns)) _ e in
      let ih = apply_each_lem au (delete_confirmed crypto b.transactions p.txns) txns kept in
      subst
        (λ (q : Pool).
          (q.cs ≡ au.state)
          × (q.prev_cs ≡ p.cs)
          × ValidIn q.cs q.txns
          × All (λ txn. Absent (transaction_id crypto txn) q.txns) b.transactions)
        (some_eq e')
        (
          refl,
          refl,
          ih.0,
          Absent-after b.transactions (delete_confirmed crypto b.transactions p.txns) txns ih.1
              (delete_confirmed-Absent b.transactions p.txns),
        )

  -- What validateTransaction accepts is valid in the pool's state.
  refresh-ValidIn :
      (p : Pool) (txn txn' : Transaction)
      → refresh crypto p txn ≡ ok txn'
      → validate_transaction crypto p.cs txn' ≡ ok tt
  unfolding refresh
  refresh-ValidIn p txn txn' e = elim (Outcome-cases (validate_transaction crypto p.cs txn)) [
    | inl q ↦ let e' = rw (q, refresh) at e in absurd (cc e')
    | inr (inr (u, q)) ↦
        let e' = rw (q, refresh) at e in
        subst (λ t. validate_transaction crypto p.cs t ≡ ok tt) (ok_eq e') q
    | inr (inl (failure, q)) ↦
        elim (Bool-cases (is_ok (validate_transaction crypto p.prev_cs txn))) [
          | inr no_more ↦ let e' = rw (q, no_more, refresh) at e in absurd (cc e')
          | inl again ↦ elim (Option-cases (apply_transaction_proofs crypto p.prev_update txn)) [
            | inl failed ↦ let e' = rw (q, again, failed, refresh) at e in absurd (cc e')
            | inr (newer, updated) ↦ elim (Outcome-cases (validate_transaction crypto p.cs newer)) [
              | inl q' ↦ let e' = rw (q, again, updated, q', refresh) at e in absurd (cc e')
              | inr (inl (failure', q')) ↦
                  let e' = rw (q, again, updated, q', refresh) at e in absurd (cc e')
              | inr (inr (u, q')) ↦
                  let e' = rw (q, again, updated, q', refresh) at e in
                  subst (λ t. validate_transaction crypto p.cs t ≡ ok tt) (ok_eq e') q'
            ]
          ]
        ]
  ]

  validate_pool_transaction-ValidIn :
      (p : Pool) (txn txn' : Transaction)
      → validate_pool_transaction crypto p txn ≡ ok txn'
      → (validate_transaction crypto p.cs txn' ≡ ok tt)
        × (claim_ephemeral (pool_outputs p.txns) txn'.inputs ≡ true)
  unfolding validate_pool_transaction
  validate_pool_transaction-ValidIn p txn txn' e = elim (Outcome-cases (refresh crypto p txn)) [
    | inl q ↦ let e' = rw (q, validate_pool_transaction) at e in absurd (cc e')
    | inr (inl (failure, q)) ↦ let e' = rw (q, validate_pool_transaction) at e in absurd (cc e')
    | inr (inr (newer, q)) ↦
        elim (Bool-cases (claim_ephemeral (pool_outputs p.txns) newer.inputs)) [
          | inr unknown ↦ let e' = rw (q, unknown, validate_pool_transaction) at e in absurd (cc e')
          | inl known ↦
              let e' = rw (q, known, validate_pool_transaction) at e in
              subst
                (λ t.
                  (validate_transaction crypto p.cs t ≡ ok tt)
                  × (claim_ephemeral (pool_outputs p.txns) t.inputs ≡ true))
                (ok_eq e') (refresh-ValidIn p txn newer q, known)
        ]
  ]

  -- When addTransaction succeeds, the state stays, the transactions stay valid, and the identifier is
  -- in the pool.
  add_transaction_lem :
      (p p' : Pool) (txn : Transaction)
      → ValidIn p.cs p.txns
      → add_transaction crypto p txn ≡ ok p'
      → (p'.cs ≡ p.cs)
        × ValidIn p.cs p'.txns
        × ((found : Transaction) × (get_txn p'.txns (transaction_id crypto txn) ≡ some found))
  unfolding add_transaction
  add_transaction_lem p p' txn v e =
      elim (Option-cases (get_txn p.txns (transaction_id crypto txn))) [
        | inr (known, q) ↦
            let e' = rw (q, add_transaction) at e in
            subst
              (λ (r : Pool).
                (r.cs ≡ p.cs)
                × ValidIn p.cs r.txns
                × ((found : Transaction) × (get_txn r.txns (transaction_id crypto txn)
                      ≡ some found)))
              (ok_eq e') (refl, v, (known, q))
        | inl q ↦ elim (Outcome-cases (validate_pool_transaction crypto p txn)) [
          | inl f ↦ let e' = rw (q, f, add_transaction) at e in absurd (cc e')
          | inr (inl (failure, f)) ↦ let e' = rw (q, f, add_transaction) at e in absurd (cc e')
          | inr (inr (newer, f)) ↦
              let e' = rw (q, f, add_transaction) at e in
              let valid = validate_pool_transaction-ValidIn p txn newer f in
              subst
                (λ (r : Pool).
                  (r.cs ≡ p.cs)
                  × ValidIn p.cs r.txns
                  × ((found : Transaction) × (get_txn r.txns (transaction_id crypto txn)
                        ≡ some found)))
                (ok_eq e')
                (
                  refl,
                  (valid.0, delete_txn-All _ p.txns (transaction_id crypto txn) v),
                  (newer, get_txn-put_txn p.txns (transaction_id crypto txn) newer),
                )
        ]
      ]

  add_each_lem :
      (p : Pool) (txns : List Transaction)
      → ValidIn p.cs p.txns
      → ((add_each crypto p txns).0.cs ≡ p.cs) × ValidIn p.cs (add_each crypto p txns).0.txns
  unfolding add_each
  add_each_lem p [] v = (refl, v)
  add_each_lem p (txn ∷ txns) v = elim (Outcome-cases (add_transaction crypto p txn)) [
    | inl q ↦ rw (q, add_each) (refl, v)
    | inr (inl (failure, q)) ↦ rw (q, add_each) (refl, v)
    | inr (inr (p', q)) ↦
        let (same, valid, present) = add_transaction_lem p p' txn v q in
        let ih = add_each_lem p' txns (subst (λ s. ValidIn s p'.txns) (sym same) valid) in
        rw (q, add_each)
          (ih.0 ∙ same, subst (λ s. ValidIn s (add_each crypto p' txns).0.txns) same ih.1)
  ]

  -- AddTransactionSet keeps the pool at its state with all transactions valid there, when it succeeds
  -- and when it ends in an error, at the start or in the middle of the set.
  pub add_transaction_set-ValidIn :
      (p : Pool) (txns : List Transaction)
      → ValidIn p.cs p.txns
      → let (p', result) = add_transaction_set crypto p txns in
        (p'.cs ≡ p.cs) × ValidIn p'.cs p'.txns
  unfolding add_transaction_set
  add_transaction_set-ValidIn p txns v =
      elim (Outcome-cases (validate_transaction_set crypto p.cs txns)) [
        | inl q ↦ rw (q, add_transaction_set) (refl, v)
        | inr (inl (failure, q)) ↦ rw (q, add_transaction_set) (refl, v)
        | inr (inr (u, q)) ↦
            let ih = add_each_lem p txns v in
            rw (q, add_transaction_set)
              (ih.0, subst (λ s. ValidIn s (add_each crypto p txns).0.txns) (sym ih.0) ih.1)
      ]
