-- ===== src/Consensus/Scratch.antt =====
-- consensus/scratch.go: headers of a possible extension of the chain, validated before their blocks.
-- The state after a block (ApplyBlock of consensus/update.go) is a parameter.
use sunyata.Common.{
  ℕ, ◌==◌, ltb, leb, not, ◌&&◌, Bool, false, List, [], ◌∷◌, ◌++◌, Option, none, some, get_elem?,
  length, drop, if◌then◌else◌,
}
use sunyata.Common.Outcome.{ok, err, panic, ◌>>=◌}
use sunyata.Common.Word.{add_u64, sub_u64}
use sunyata.Work.{Work}
use sunyata.Types.{Crypto, ChainIndex, BlockHeader, Block, chain_index_eq}
use sunyata.Identity.{parent_index}
use sunyata.Consensus.Errors.{Error, Result}
use sunyata.Consensus.State.{State, Checkpoint}
use sunyata.Consensus.Validation.{validate_header}
use sunyata.Consensus.Blocks.{validate_block}
use sunyata.Consensus.Header.{apply_header}

pub record ScratchChain : Type 0 where
  pub base : ChainIndex
  pub headers : List BlockHeader
  pub hs : State
  pub ts : State

-- NewScratchChain
unfoldable pub new_scratch_chain : State → ScratchChain
new_scratch_chain s = record { base = s.index; headers = []; hs = s; ts = s }

-- Tip, ValidTip and TotalWork; Base is the field.
unfoldable pub tip : ScratchChain → ChainIndex
tip sc = sc.hs.index

unfoldable pub valid_tip : ScratchChain → ChainIndex
valid_tip sc = sc.ts.index

unfoldable pub total_work : ScratchChain → Work
total_work sc = sc.hs.total_work

-- Index; `none` is an index out of range.
unfoldable pub index_at : ScratchChain → ℕ → Option ChainIndex
unfolding tip
index_at sc height =
    if height == (tip sc).height
    then some (tip sc)
    else elim (get_elem? sc.headers (sub_u64 height sc.base.height)) [
      | none ↦ none
      | some h ↦ some (parent_index h)
    ]

-- UnvalidatedBase
unfoldable pub unvalidated_base : ScratchChain → Option ChainIndex
unvalidated_base sc =
    if sc.ts.index.height == sc.base.height
    then some sc.base
    else index_at sc (add_u64 sc.ts.index.height 1)

-- FullyValidated
unfoldable pub fully_validated : ScratchChain → Bool
fully_validated sc = chain_index_eq sc.ts.index sc.hs.index

-- Contains
unfoldable pub contains : ScratchChain → ChainIndex → Option Bool
contains sc index =
    if not (ltb sc.base.height index.height && leb index.height (tip sc).height)
    then some false
    else elim (index_at sc index.height) [ none ↦ none | some i ↦ some (chain_index_eq i index) ]

-- The loop of Unvalidated.
unfoldable pub indices : ScratchChain → List BlockHeader → Option (List ChainIndex)
indices sc [] = some []
indices sc (h ∷ hs) =
    let rest = indices sc hs in
    elim (index_at sc h.height) [
      | none ↦ none
      | some i ↦ elim rest [ none ↦ none | some is ↦ some (i ∷ is) ]
    ]

-- Unvalidated
unfoldable pub unvalidated : ScratchChain → Option (List ChainIndex)
unvalidated sc =
    let done = sub_u64 sc.ts.index.height sc.base.height in
    if ltb (length sc.headers) done then none else indices sc (drop done sc.headers)

module _ (crypto : Crypto) where
  -- AppendHeader
  unfoldable pub append_header : ScratchChain → BlockHeader → Result ScratchChain
  append_header sc h = do
    valid ← validate_header crypto sc.hs h
    elim (apply_header crypto sc.hs h) [
      | none ↦ panic
      | some hs' ↦ ok (record sc { hs = hs'; headers = sc.headers ++ h ∷ [] })
    ]

  -- ApplyBlock, for the function `apply` from a state and a block to the state of its ApplyUpdate;
  -- `more_blocks` is the error that there is no header for the block.
  unfoldable pub apply_block :
      (State → Block → Option State)
      → Error
      → ScratchChain
      → Block
      → Result (Checkpoint × ScratchChain)
  apply_block apply more_blocks sc b =
      if ltb sc.hs.index.height (add_u64 sc.ts.index.height 1)
      then err more_blocks
      else (validate_block crypto sc.ts b >>= λ valid. elim (apply sc.ts b) [
        | none ↦ panic
        | some s ↦ ok (record { block = b; state = s }, record sc { ts = s })
      ])
