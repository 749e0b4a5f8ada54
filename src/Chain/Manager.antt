-- ===== src/Chain/Manager.antt =====
-- chain/manager.go: Manager, and the change of its best chain. A call that fails leaves the manager in
-- the state that it has reached, so that every operation returns the manager and an outcome.
pub mod Tip
pub mod Route
use sunyata.Common.{
  ℕ, zero, suc, ◌+◌, ◌-◌, ltb, not, Bool, true, false, Option, none, some, List, [], ◌∷◌, ◌++◌,
  if◌then◌else◌,
}
use sunyata.Common.Outcome.{Outcome, ok, err, panic}
use sunyata.Types.{Crypto, ChainIndex, BlockHeader, Block, Time, chain_index_eq}
use sunyata.Identity.{parent_index, header_index}
use sunyata.Consensus.State.{State, Checkpoint}
use sunyata.Consensus.Scratch.{ScratchChain, index_at, valid_tip}
use sunyata.Consensus.Apply.{ApplyUpdate, RevertUpdate, apply_block, revert_block}
use sunyata.Chain.{StoreError, unknown_index, pruned, other_failure, ManagerStore}

pub data ChainError : Type 0 where
  store_error : StoreError → ChainError
  subscriber_error : ChainError

-- Subscriber: its new state, and whether it returned no error.
pub record Subscriber (Sub : Type 0) : Type 0 where
  pub process_apply : ApplyUpdate → Block → Bool → Sub → Sub × Bool
  pub process_revert : RevertUpdate → Block → Sub → Sub × Bool

-- The loop over the subscribers, which the first error ends.
unfoldable pub notify : {Sub : Type 0} → (Sub → Sub × Bool) → List Sub → List Sub × Bool
notify f [] = ([], true)
notify f (s ∷ ss) =
    let (s', fine) = f s in
    let (rest, all_fine) = notify f ss in if fine then (s' ∷ rest, all_fine) else (s' ∷ ss, false)

pub record Manager (Store Sub : Type 0) : Type 0 where
  pub store : Store
  pub cs : State
  pub chains : List ScratchChain
  pub subscribers : List Sub
  pub last_flush : Time

-- NewManager
abbrev pub new_manager : {Store Sub : Type 0} → Store → State → Time → Manager Store Sub
new_manager store cs now = record {
  store = store;
  cs = cs;
  chains = [];
  subscribers = [];
  last_flush = now;
}

-- A minute, in nanoseconds.
abbrev pub minute : ℕ
minute = 60_000_000_000

-- A manager after a call, with the outcome of the call.
abbrev pub Done : Type 0 → Type 0 → Type 0
Done Store Sub = Manager Store Sub × Outcome ChainError (Unit {0})

module _ {Store Sub : Type 0} where
  -- A call of the store, whose error the operation returns. A failing call is taken to leave the
  -- store as it was.
  unfoldable pub calling :
      {A : Type 0}
      → Manager Store Sub
      → Outcome StoreError A
      → (A → Done Store Sub)
      → Done Store Sub
  calling m (ok a) rest = rest a
  calling m (err e) rest = (m, err (store_error e))
  calling m panic rest = (m, panic)

  -- The call of what follows, unless the operation has ended.
  unfoldable pub continuing : Done Store Sub → (Manager Store Sub → Done Store Sub) → Done Store Sub
  continuing (m, ok u) rest = rest m
  continuing (m, err e) rest = (m, err e)
  continuing (m, panic) rest = (m, panic)

module _ (crypto : Crypto) {Store Sub : Type 0} (ops : ManagerStore Store)
    (sub : Subscriber Sub) where
  -- The notification in revertTip, and what follows it.
  unfoldable pub finish_revert :
      Manager Store Sub → Checkpoint → State → Option RevertUpdate → Done Store Sub
  finish_revert m c cs none = (m, panic)
  finish_revert m c cs (some ru) =
      let (subs, fine) = notify (sub.process_revert ru c.block) m.subscribers in
      let m' : Manager Store Sub = record m { subscribers = subs } in
      if fine
      then calling m' (ops.rewind_best m'.store)
          (λ store. (record m' { store = store; cs = cs }, ok tt))
      else (m', err subscriber_error)

  -- revertTip
  unfoldable pub revert_tip : Manager Store Sub → Done Store Sub
  revert_tip m = calling m (ops.checkpoint m.cs.index m.store) (λ c.
      calling m (ops.checkpoint (parent_index c.block.header) m.store)
        (λ p. finish_revert m c p.state (revert_block crypto p.state c.block)))

  -- The notification in applyTip, and what follows it.
  unfoldable pub finish_apply :
      Manager Store Sub → Checkpoint → Bool → Option ApplyUpdate → Done Store Sub
  finish_apply m c may_commit none = (m, panic)
  finish_apply m c may_commit (some au) =
      let (subs, fine) = notify (sub.process_apply au c.block may_commit) m.subscribers in
      if fine
      then (record m { subscribers = subs; cs = au.state }, ok tt)
      else (record m { subscribers = subs }, err subscriber_error)

  -- applyTip, at the time `now`.
  unfoldable pub apply_tip : Time → ChainIndex → Manager Store Sub → Done Store Sub
  apply_tip now index m = calling m (ops.checkpoint index m.store) (λ c.
      if not (chain_index_eq (parent_index c.block.header) m.cs.index)
      then (m, panic)
      else calling m (ops.extend_best c.state.index m.store) (λ store.
        let m' : Manager Store Sub = record m { store = store } in
        if ltb minute (now - m.last_flush)
        then calling m' (ops.flush store) (λ store'.
          finish_apply (record m' { store = store'; last_flush = now }) c true
            (apply_block crypto m.cs c.block))
        else finish_apply m' c false (apply_block crypto m.cs c.block)))

  -- `for m.cs.Index != base.Index() { m.revertTip() }`; out of fuel is `panic`.
  unfoldable pub revert_to : ℕ → ChainIndex → Manager Store Sub → Done Store Sub
  revert_to zero base m = if chain_index_eq m.cs.index base then (m, ok tt) else (m, panic)
  revert_to (suc fuel) base m =
      if chain_index_eq m.cs.index base
      then (m, ok tt)
      else continuing (revert_tip m) (λ m'. revert_to fuel base m')

  -- `for m.cs.Index != sc.ValidTip()`: the blocks of `rebase`, whose last entry comes first here,
  -- then those of the scratch chain.
  unfoldable pub apply_to :
      ℕ → Time → ScratchChain → List ChainIndex → Manager Store Sub → Done Store Sub
  apply_to zero now sc rebase m =
      if chain_index_eq m.cs.index (valid_tip sc) then (m, ok tt) else (m, panic)
  apply_to (suc fuel) now sc rebase m =
      if chain_index_eq m.cs.index (valid_tip sc) then (m, ok tt) else elim rebase [
        | next ∷ rest ↦ continuing (apply_tip now next m) (λ m'. apply_to fuel now sc rest m')
        | [] ↦ elim (index_at sc (m.cs.index.height + 1)) [
          | none ↦ (m, panic)
          | some next ↦ continuing (apply_tip now next m) (λ m'. apply_to fuel now sc [] m')
        ]
      ]

  -- `index, err := m.store.BestIndex(base.Height)`: whether `base` is in the best chain. With an
  -- unknown index there is none to compare.
  unfoldable pub in_best : Manager Store Sub → BlockHeader → Outcome StoreError Bool
  in_best m base = elim (ops.best_index base.height m.store) [
    | ok index ↦ ok (chain_index_eq index (header_index crypto base))
    | err e ↦ elim e [
      | unknown_index ↦ ok false
      | pruned ↦ err pruned
      | other_failure ↦ err other_failure
    ]
    | panic ↦ panic
  ]

  -- The walk from the base of the scratch chain to the best chain, then both loops. The heights are
  -- fuel enough: every round goes one block down or up.
  unfoldable pub rebase_from :
      ℕ → Time → ScratchChain → BlockHeader → List ChainIndex → Manager Store Sub → Done Store Sub
  rebase_from zero now sc base rebase m = (m, panic)
  rebase_from (suc fuel) now sc base rebase m = calling m (in_best m base) (λ attached.
      if attached
      then continuing (revert_to (m.cs.index.height + 1) (header_index crypto base) m)
          (λ m'. apply_to ((valid_tip sc).height + 1) now sc rebase m')
      else calling m (ops.header (parent_index base) m.store)
          (λ base'. rebase_from fuel now sc base' (header_index crypto base ∷ rebase) m))

  -- reorgTo
  unfoldable pub reorg_to : Time → ScratchChain → Manager Store Sub → Done Store Sub
  reorg_to now sc m =
      calling m (ops.header sc.base m.store)
        (λ base. rebase_from (sc.base.height + 1) now sc base [] m)
