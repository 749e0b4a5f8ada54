-- ===== src/Tests/Reorgs.antt =====
-- Two blocks on top of the same genesis block, and a pruned chain.
use mathlib.Core.List.{reverse}
use sunyata.Common.{
  ℕ, ◌≡◌, refl, arith, false, ltb, lt→ltb, All, List, [], ◌∷◌, bytes_eq, if◌then◌else◌,
}
use sunyata.Common.Outcome.{Outcome, ok, err}
use sunyata.Types.{ChainIndex, BlockHeader}
use sunyata.Identity.{parent_index}
use sunyata.Chain.{StoreError, unknown_index, pruned, reorg_path}
use sunyata.Chain.History.{history}
use sunyata.Chain.History.Spans.{EndsAt, OnBest, history-spans}
use sunyata.Chain.Reorg.{Down, reorg_path-connects}
use sunyata.Tests.Data.{header}

abbrev index : ℕ → ℕ → ChainIndex
index height name = record { height = height; id = name ∷ [] }

-- Blocks 2 and 3 have the parent 1; block 4 has the parent 3.
abbrev lookup : ChainIndex → Outcome StoreError BlockHeader
lookup i =
    if bytes_eq i.id (2 ∷ [])
    then ok (record header { height = 1; parent_id = 1 ∷ [] })
    else if bytes_eq i.id (3 ∷ [])
    then ok (record header { height = 1; parent_id = 1 ∷ [] })
    else if bytes_eq i.id (4 ∷ [])
    then ok (record header { height = 2; parent_id = 3 ∷ [] })
    else err unknown_index

reorg_path-connects_example :
    (c : ChainIndex) × (revert : List ChainIndex) × (apply : List ChainIndex) × (reorg_path lookup
        (index 1 2)
        (index 2 4)
      ≡ ok (revert, reverse apply))
    × Down lookup (index 1 2) revert c
    × Down lookup (index 2 4) apply c
unfolding bytes_eq parent_index
reorg_path-connects_example =
    reorg_path-connects lookup (index 0 1) (index 1 2) (index 2 4) 1 2 (refl, _, refl, (refl, refl))
      (refl, _, refl, (refl, _, refl, (refl, refl)))

-- A best chain from height 3 to height 20.
abbrev pruned_best : ℕ → Outcome StoreError ChainIndex
pruned_best height = if ltb height 3 then err pruned else ok (index height height)

history-spans_example :
    (first : ChainIndex) × (rest : List ChainIndex) × (history pruned_best 20 ≡ ok (first ∷ rest))
    × (first.height ≡ 20)
    × EndsAt pruned_best 3 (first ∷ rest)
    × All (OnBest pruned_best) (first ∷ rest)
history-spans_example =
    history-spans pruned_best 20 3 (omega arith) (omega arith) (λ h lt. rw (lt→ltb h 3 lt) refl)
      (λ h lo hi. let there : ltb h 3 ≡ false = ground arith in (index h h, rw there refl, refl))
