-- ===== src/Tests/Headers.antt =====
-- A chain of two headers.
use sunyata.Common.{◌*◌, ◌/◌, ◌≤◌, ◌≡◌, refl, arith, some, [], ◌∷◌}
use sunyata.Work.{Work, IsWork, hashes}
use sunyata.Types.{BlockHeader}
use sunyata.Identity.{header_index}
use sunyata.Consensus.State.{State}
use sunyata.Consensus.Header.{adjust_difficulty, apply_header, genesis_state, set_time}
use sunyata.Consensus.Header.Difficulty.{adjust_difficulty-bounds}
use sunyata.Consensus.Header.Window.{Chain, IsKept, apply_header-IsKept, Chain-IsKept}
use sunyata.Tests.Data.{toy, state, header}

abbrev easy : Work
easy = record { n0 = 0; n1 = 0; n2 = 0; n3 = 1000 }

easy-IsWork : IsWork easy
easy-IsWork = omega arith

abbrev first : BlockHeader
first = record header { height = 0; timestamp = 100 }

abbrev founded : State
founded = record (genesis_state easy 100) {
  prev_timestamps = 100 ∷ 0 ∷ 0 ∷ 0 ∷ 0 ∷ 0 ∷ 0 ∷ 0 ∷ 0 ∷ 0 ∷ 0 ∷ [];
  index = header_index toy first;
}

founded-apply : apply_header toy (genesis_state easy 100) first ≡ some founded
unfolding apply_header genesis_state set_time
founded-apply = refl

founded-Chain : Chain toy founded (100 ∷ [])
founded-Chain = Chain.genesis easy first easy-IsWork refl founded-apply

Chain-IsKept_example : IsKept founded (100 ∷ [])
Chain-IsKept_example = Chain-IsKept toy founded (100 ∷ []) founded-Chain (omega arith)

apply_header-IsKept_example :
    (s : State) × (apply_header toy founded header ≡ some s) × IsKept s (100 ∷ 200 ∷ [])
unfolding header_index
apply_header-IsKept_example =
    apply_header-IsKept toy founded (100 ∷ []) header Chain-IsKept_founded refl (omega arith)
  where
    Chain-IsKept_founded : IsKept founded (100 ∷ [])
    Chain-IsKept_founded = Chain-IsKept toy founded (100 ∷ []) founded-Chain (omega arith)

adjust_difficulty-bounds_example :
    (d : Work) × (adjust_difficulty (record state { difficulty = easy }) header ≡ some d)
    × (hashes easy / 4 ≤ hashes d)
    × (hashes d ≤ hashes easy * 4)
    × IsWork d
adjust_difficulty-bounds_example =
    adjust_difficulty-bounds (record state { difficulty = easy }) header easy-IsWork (omega arith)
