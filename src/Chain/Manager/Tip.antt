-- ===== src/Chain/Manager/Tip.antt =====
-- revertTip and applyTip, with the store's best chain and what the subscribers have seen of it.
use sunyata.Common.{
  ◌-◌, ◌≡◌, refl, sym, ap, ◌∙◌, subst, ltb, Bool, true, false, some, List, [], ◌∷◌, All,
  if◌then◌else◌,
}
use sunyata.Common.Outcome.{Outcome, ok, err, panic, ok_eq}
use sunyata.Types.{Crypto, ChainIndex, Block, Time}
use sunyata.Identity.{parent_index}
use sunyata.Consensus.State.{State, Checkpoint}
use sunyata.Consensus.Apply.{ApplyUpdate, RevertUpdate, apply_block, revert_block}
use sunyata.Chain.{StoreError, ManagerStore}
use sunyata.Chain.Reorg.{chain_index_eq_refl}
use sunyata.Chain.Manager.{
  Subscriber, notify, Manager, minute, Done, calling, continuing, finish_revert, revert_tip,
  finish_apply, apply_tip,
}

-- A store and subscribers that work: `best` is the store's best chain and `view` the chain that a
-- subscriber has seen, both with the tip first.
pub record Working {Store Sub : Type 0} (ops : ManagerStore Store) (sub : Subscriber Sub)
    (best : Store → List ChainIndex) (view : Sub → List ChainIndex) : Type 0 where
  pub extends :
      (st : Store) (i : ChainIndex) (c : Checkpoint)
      → ops.checkpoint i st ≡ ok c
      → (st' : Store) × (ops.extend_best i st ≡ ok st')
        × (best st' ≡ i ∷ best st)
        × ((j : ChainIndex) → ops.checkpoint j st' ≡ ops.checkpoint j st)
  pub rewinds :
      (st : Store) (x y : ChainIndex) (rest : List ChainIndex)
      → best st ≡ x ∷ y ∷ rest
      → (st' : Store) × (ops.rewind_best st ≡ ok st')
        × (best st' ≡ y ∷ rest)
        × ((j : ChainIndex) → ops.checkpoint j st' ≡ ops.checkpoint j st)
  pub flushes :
      (st : Store)
      → (st' : Store) × (ops.flush st ≡ ok st')
        × (best st' ≡ best st)
        × ((j : ChainIndex) → ops.checkpoint j st' ≡ ops.checkpoint j st)
  pub applies :
      (au : ApplyUpdate) (b : Block) (may_commit : Bool) (s : Sub)
      → (s' : Sub) × (sub.process_apply au b may_commit s ≡ (s', true))
        × (view s' ≡ au.state.index ∷ view s)
  pub reverts :
      (ru : RevertUpdate) (b : Block) (s : Sub) (x y : ChainIndex) (rest : List ChainIndex)
      → view s ≡ x ∷ y ∷ rest
      → (s' : Sub) × (sub.process_revert ru b s ≡ (s', true)) × (view s' ≡ y ∷ rest)

module _ {Store Sub : Type 0} where
  pub calling_lem :
      {A : Type 0} (P : Done Store Sub → Type 0) (m : Manager Store Sub)
      (call : Outcome StoreError A) (a : A) (rest : A → Done Store Sub)
      → call ≡ ok a
      → P (rest a)
      → P (calling m call rest)
  unfolding calling
  calling_lem P m (ok b) a rest e p = subst (λ x. P (rest x)) (sym (ok_eq e)) p
  calling_lem P m (err x) a rest e p = absurd (cc e)
  calling_lem P m panic a rest e p = absurd (cc e)

  pub continuing_lem :
      (P : Done Store Sub → Type 0) (r : Done Store Sub) (m : Manager Store Sub)
      (rest : Manager Store Sub → Done Store Sub)
      → r ≡ (m, ok tt)
      → P (rest m)
      → P (continuing r rest)
  unfolding continuing
  continuing_lem P r m rest e p = subst (λ x. P (continuing x rest)) (sym e) p

  pub choice_lem :
      (P : Done Store Sub → Type 0) (b : Bool) (x y : Done Store Sub)
      → P x
      → P y
      → P (if b then x else y)
  choice_lem P true x y p q = p
  choice_lem P false x y p q = q

module _ (crypto : Crypto) {Store Sub : Type 0} (ops : ManagerStore Store) (sub : Subscriber Sub)
    (best : Store → List ChainIndex) (view : Sub → List ChainIndex)
    (working : Working ops sub best view) (look : ChainIndex → Outcome StoreError Checkpoint) where
  -- The store has the checkpoints `look` and the best chain, which all subscribers have seen.
  pub record Synced (chain : List ChainIndex) (m : Manager Store Sub) : Type 0 where
    pub kept : (j : ChainIndex) → ops.checkpoint j m.store ≡ look j
    pub recorded : best m.store ≡ chain
    pub seen : All (λ s. view s ≡ chain) m.subscribers

  -- The operation returns without an error, at the state and with the chain.
  abbrev pub Reaches : State → List ChainIndex → Done Store Sub → Type 0
  Reaches s chain r = (m : Manager Store Sub) × (r ≡ (m, ok tt)) × (m.cs ≡ s) × Synced chain m

  notify-apply :
      (au : ApplyUpdate) (b : Block) (may_commit : Bool) (chain : List ChainIndex) (subs : List Sub)
      → All (λ s. view s ≡ chain) subs
      → (subs' : List Sub) × (notify (sub.process_apply au b may_commit) subs ≡ (subs', true))
        × All (λ s. view s ≡ au.state.index ∷ chain) subs'
  unfolding notify
  notify-apply au b may_commit chain [] seen = ([], refl, tt)
  notify-apply au b may_commit chain (s ∷ subs) seen =
      let (s', e, v) = working.applies au b may_commit s in
      let (subs', es, vs) = notify-apply au b may_commit chain subs seen.1 in
      (s' ∷ subs', rw (e, es) refl, (v ∙ ap (λ c. au.state.index ∷ c) seen.0, vs))

  notify-revert :
      (ru : RevertUpdate) (b : Block) (x y : ChainIndex) (rest : List ChainIndex) (subs : List Sub)
      → All (λ s. view s ≡ x ∷ y ∷ rest) subs
      → (subs' : List Sub) × (notify (sub.process_revert ru b) subs ≡ (subs', true))
        × All (λ s. view s ≡ y ∷ rest) subs'
  unfolding notify
  notify-revert ru b x y rest [] seen = ([], refl, tt)
  notify-revert ru b x y rest (s ∷ subs) seen =
      let (s', e, v) = working.reverts ru b s x y rest seen.0 in
      let (subs', es, vs) = notify-revert ru b x y rest subs seen.1 in
      (s' ∷ subs', rw (e, es) refl, (v, vs))

  -- revertTip, when the store has the tip and its parent.
  pub revert_tip-Reaches :
      (m : Manager Store Sub) (c p : Checkpoint) (ru : RevertUpdate) (x y : ChainIndex)
      (rest : List ChainIndex)
      → Synced (x ∷ y ∷ rest) m
      → look m.cs.index ≡ ok c
      → look (parent_index c.block.header) ≡ ok p
      → revert_block crypto p.state c.block ≡ some ru
      → Reaches p.state (y ∷ rest) (revert_tip crypto ops sub m)
  unfolding revert_tip finish_revert
  revert_tip-Reaches m c p ru x y rest at found found' reverted =
      let P : Done Store Sub → Type 0 = Reaches p.state (y ∷ rest) in
      let (subs, told, seen) = notify-revert ru c.block x y rest m.subscribers at.seen in
      let (st, rewound, recorded, same) = working.rewinds m.store x y rest at.recorded in
      calling_lem P m (ops.checkpoint m.cs.index m.store) c _ (at.kept _ ∙ found) (
        calling_lem P m (ops.checkpoint (parent_index c.block.header) m.store) p _
          (at.kept _ ∙ found')
          (rw (reverted, told)
            (calling_lem P (record m { subscribers = subs }) (ops.rewind_best m.store) st _ rewound
              (
                record m { subscribers = subs; store = st; cs = p.state },
                refl,
                refl,
                record { kept = λ j. same j ∙ at.kept j; recorded = recorded; seen = seen },
              ))))

  finish_apply-Reaches :
      (m : Manager Store Sub) (c : Checkpoint) (may_commit : Bool) (au : ApplyUpdate)
      (chain : List ChainIndex)
      → ((j : ChainIndex) → ops.checkpoint j m.store ≡ look j)
      → best m.store ≡ au.state.index ∷ chain
      → All (λ s. view s ≡ chain) m.subscribers
      → Reaches au.state
          (au.state.index ∷ chain)
          (finish_apply crypto ops sub m c may_commit (some au))
  unfolding finish_apply
  finish_apply-Reaches m c may_commit au chain kept recorded seen =
      let (subs, told, seen') = notify-apply au c.block may_commit chain m.subscribers seen in
      (
        record m { subscribers = subs; cs = au.state },
        rw told refl,
        refl,
        record { kept = kept; recorded = recorded; seen = seen' },
      )

  -- applyTip, when the store has the block and it extends the tip.
  pub apply_tip-Reaches :
      (now : Time) (m : Manager Store Sub) (c : Checkpoint) (au : ApplyUpdate)
      (chain : List ChainIndex)
      → Synced chain m
      → look au.state.index ≡ ok c
      → parent_index c.block.header ≡ m.cs.index
      → c.state.index ≡ au.state.index
      → apply_block crypto m.cs c.block ≡ some au
      → Reaches au.state (au.state.index ∷ chain) (apply_tip crypto ops sub now au.state.index m)
  unfolding apply_tip
  apply_tip-Reaches now m c au chain at found attaches same_index applied =
      let P : Done Store Sub → Type 0 = Reaches au.state (au.state.index ∷ chain) in
      let index = au.state.index in
      let stored : ops.checkpoint index m.store ≡ ok c = at.kept index ∙ found in
      let (st, extended, recorded, same) = working.extends m.store index c stored in
      let (st', flushed, recorded', same') = working.flushes st in
      let m1 : Manager Store Sub = record m { store = st } in
      let m2 : Manager Store Sub = record m { store = st'; last_flush = now } in
      let kept : (j : ChainIndex) → ops.checkpoint j st ≡ look j = λ j. same j ∙ at.kept j in
      let longer : best st ≡ index ∷ chain = recorded ∙ ap (λ t. index ∷ t) at.recorded in
      calling_lem P m (ops.checkpoint index m.store) c _ stored (
        rw (attaches, chain_index_eq_refl m.cs.index)
          (calling_lem P m (ops.extend_best c.state.index m.store) st _
            (ap (λ i. ops.extend_best i m.store) same_index ∙ extended)
            (choice_lem P (ltb minute (now - m.last_flush)) _ _
              (calling_lem P m1 (ops.flush st) st' _ flushed (
                rw applied (
                  finish_apply-Reaches m2 c true au chain (λ j. same' j ∙ kept j)
                    (recorded' ∙ longer) at.seen)))
              (rw applied (finish_apply-Reaches m1 c false au chain kept longer at.seen)))))
