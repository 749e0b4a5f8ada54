-- ===== src/Consensus/Header.antt =====
-- consensus/update.go: what a header does to the state.
pub mod Window
pub mod Difficulty
use sunyata.Common.{
  ℕ, zero, suc, ◌+◌, ◌-◌, ◌*◌, ◌/◌, ◌%◌, ◌^◌, min, Bool, true, false, Option, none, some, List, [],
  ◌∷◌, ◌++◌, drop, length, ltb, ◌==◌, if◌then◌else◌,
}
use sunyata.Work.{Work}
use sunyata.Work
use sunyata.Merkle.Accumulator.{Accumulator}
use sunyata.Types.{Crypto, Hash256, Time, BlockHeader}
use sunyata.Identity.{header_index}
use sunyata.Consensus.State.{State, num_timestamps, block_interval, difficulty_adjustment_interval}

-- `expectedDelta`, in nanoseconds.
abbrev pub expected_delta : ℕ
expected_delta = block_interval * difficulty_adjustment_interval

-- `h.Timestamp.Sub(s.LastAdjust)`, which saturates at the largest Duration; a negative one is taken
-- as 0, since both are raised to a quarter of the expected one.
abbrev pub elapsed : Time → Time → ℕ
elapsed last t = min (t - last) (2 ^ 63 - 1)

-- The clamp of adjustDifficulty.
unfoldable pub clamped_delta : ℕ → ℕ
clamped_delta actual =
    if ltb (expected_delta * 4) actual
    then expected_delta * 4
    else if ltb actual (expected_delta / 4)
    then expected_delta / 4
    else actual

-- adjustDifficulty; `none` is a panic.
unfoldable pub adjust_difficulty : State → BlockHeader → Option Work
adjust_difficulty s h =
    Work.div_64 (Work.mul_64 s.difficulty expected_delta)
      (clamped_delta (elapsed s.last_adjust h.timestamp))

-- `ts[i] = t`
unfoldable pub set_time : ℕ → Time → List Time → List Time
set_time i t [] = []
set_time zero t (u ∷ us) = t ∷ us
set_time (suc i) t (u ∷ us) = u ∷ set_time i t us

-- The difficulty and the time of its adjustment after a header.
unfoldable pub retarget : State → BlockHeader → Option (Work × Time)
retarget s h =
    if h.height % difficulty_adjustment_interval == 0
    then elim (adjust_difficulty s h) [ none ↦ none | some d ↦ some (d, h.timestamp) ]
    else some (s.difficulty, s.last_adjust)

-- The array of timestamps after a header: the next entry, or the last one after a shift.
unfoldable pub push_timestamp : State → Time → List Time
push_timestamp s t =
    if ltb (num_timestamps s) (length s.prev_timestamps)
    then set_time (num_timestamps s) t s.prev_timestamps
    else drop 1 s.prev_timestamps ++ t ∷ []

module _ (crypto : Crypto) where
  -- applyHeader
  unfoldable pub apply_header : State → BlockHeader → Option State
  apply_header s h =
      if h.height == 0
      then some (record s {
        prev_timestamps = set_time 0 h.timestamp s.prev_timestamps;
        index = header_index crypto h;
      })
      else elim (retarget s h) [
        | none ↦ none
        | some (difficulty, last) ↦ some (record s {
          total_work = Work.add s.total_work s.difficulty;
          difficulty = difficulty;
          last_adjust = last;
          prev_timestamps = push_timestamp s h.timestamp;
          index = header_index crypto h;
        })
      ]

abbrev zero_hash : Hash256
zero_hash =
    0 ∷ 0 ∷ 0 ∷ 0 ∷ 0 ∷ 0 ∷ 0 ∷ 0 ∷ 0 ∷ 0 ∷ 0 ∷ 0 ∷ 0 ∷ 0 ∷ 0 ∷ 0 ∷ 0 ∷ 0 ∷ 0 ∷ 0 ∷ 0 ∷ 0 ∷ 0 ∷ 0
    ∷ 0 ∷ 0 ∷ 0 ∷ 0 ∷ 0 ∷ 0 ∷ 0 ∷ 0 ∷ []

abbrev empty_accumulator : Accumulator
empty_accumulator = record { trees = λ _. zero_hash; num_leaves = 0 }

-- The state to which GenesisUpdate applies the first block.
unfoldable pub genesis_state : Work → Time → State
genesis_state difficulty timestamp = record {
  index = record { height = 0; id = zero_hash };
  elements = empty_accumulator;
  history = empty_accumulator;
  total_work = record { n0 = 0; n1 = 0; n2 = 0; n3 = 0 };
  difficulty = difficulty;
  last_adjust = timestamp;
  prev_timestamps = 0 ∷ 0 ∷ 0 ∷ 0 ∷ 0 ∷ 0 ∷ 0 ∷ 0 ∷ 0 ∷ 0 ∷ 0 ∷ [];
}
