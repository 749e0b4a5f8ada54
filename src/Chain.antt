-- ===== src/Chain.antt =====
-- chain/manager.go: the store and the path between two indices of a block tree.
pub mod Reorg
pub mod History
pub mod Manager
use mathlib.Core.List.{reverse}
use sunyata.Common.{ℕ, zero, suc, ltb, not, Bool, true, false, List, [], ◌∷◌, ◌++◌, if◌then◌else◌}
use sunyata.Common.Outcome.{Outcome, ok, err, panic, ◌>>=◌}
use sunyata.Types.{ChainIndex, BlockHeader, chain_index_eq}
use sunyata.Identity.{parent_index}
use sunyata.Consensus.State.{Checkpoint}

-- ErrUnknownIndex, ErrPruned, and any other error of a store.
pub data StoreError : Type 0 where
  unknown_index pruned other_failure : StoreError

-- ManagerStore, on a type of stores.
pub record ManagerStore (Store : Type 0) : Type 0 where
  pub add_checkpoint : Checkpoint → Store → Outcome StoreError Store
  pub checkpoint : ChainIndex → Store → Outcome StoreError Checkpoint
  pub header : ChainIndex → Store → Outcome StoreError BlockHeader
  pub extend_best : ChainIndex → Store → Outcome StoreError Store
  pub rewind_best : Store → Outcome StoreError Store
  pub best_index : ℕ → Store → Outcome StoreError ChainIndex
  pub flush : Store → Outcome StoreError Store

-- The lookups of reorgPath, for the function `header` of a store.
module _ (header : ChainIndex → Outcome StoreError BlockHeader) where
  -- `rewind`
  unfoldable pub rewind : ChainIndex → Outcome StoreError ChainIndex
  rewind index = header index >>= λ h. ok (parent_index h)

  -- `for a.Height > height { path = append(path, a); rewind(&a) }`; out of fuel is `panic`.
  unfoldable pub lower :
      ℕ → ℕ → ChainIndex → List ChainIndex → Outcome StoreError (ChainIndex × List ChainIndex)
  lower zero height a trail = if ltb height a.height then panic else ok (a, trail)
  lower (suc fuel) height a trail =
      if ltb height a.height
      then (rewind a >>= λ a'. lower fuel height a' (trail ++ a ∷ []))
      else ok (a, trail)

  -- `for a != b`
  unfoldable pub meet :
      ℕ
      → ChainIndex
      → ChainIndex
      → List ChainIndex
      → List ChainIndex
      → Outcome StoreError (List ChainIndex × List ChainIndex)
  meet zero a b revert apply = if chain_index_eq a b then ok (revert, apply) else panic
  meet (suc fuel) a b revert apply =
      if chain_index_eq a b
      then ok (revert, apply)
      else rewind a >>= λ a'.
          rewind b >>= λ b'. meet fuel a' b' (revert ++ a ∷ []) (apply ++ b ∷ [])

  -- reorgPath. Each loop goes at least one block down, so that the heights are fuel enough.
  unfoldable pub reorg_path :
      ChainIndex → ChainIndex → Outcome StoreError (List ChainIndex × List ChainIndex)
  reorg_path a b = lower a.height b.height a [] >>= λ (a', revert).
      lower b.height a'.height b [] >>= λ (b', apply).
      meet a'.height a' b' revert apply >>= λ (revert', apply'). ok (revert', reverse apply')
