-- ===== src/Consensus/State.antt =====
-- consensus/state.go: the state of the chain as of a block, and the parameters for its child.
use sunyata.Common.{
  ℕ, zero, suc, ◌+◌, ◌-◌, ◌*◌, ◌/◌, ◌%◌, ◌^◌, Option, none, some, List, [], ◌∷◌, ◌++◌, length, ltb,
  leb, if◌then◌else◌,
}
use sunyata.Common.Word.{add_u64}
use sunyata.Currency.{Currency, new_currency, base_units_per_coin, mul_64}
use sunyata.Work.{Work, fill_bytes}
use sunyata.Types.{Crypto, Hash256, Address, ChainIndex, Time, Transaction, Block}
use sunyata.Encoding.{
  write_uint64, write_string, write_prefix, write_time, encode_all, encode_chain_index,
}
use sunyata.Identity.{transaction_id, semantic_bytes}
use sunyata.Merkle.Accumulator.{Accumulator, has_tree_at_height}

pub record State : Type 0 where
  pub index : ChainIndex
  pub elements : Accumulator
  pub history : Accumulator
  pub total_work : Work
  pub difficulty : Work
  pub last_adjust : Time
  pub prev_timestamps : List Time

-- A Checkpoint pairs a block with the state after it.
pub record Checkpoint : Type 0 where
  pub block : Block
  pub state : State

-- The loop of Accumulator.EncodeTo over the array of roots, from height `h` with `n` to go.
unfoldable pub encode_roots : ℕ → ℕ → Accumulator → List ℕ
encode_roots zero h acc = []
encode_roots (suc n) h acc =
    (if has_tree_at_height acc h then acc.trees h else []) ++ encode_roots n (suc h) acc

unfoldable pub encode_accumulator : Accumulator → List ℕ
encode_accumulator acc = write_uint64 acc.num_leaves ++ encode_roots 64 0 acc

unfoldable pub encode_work : Work → List ℕ
encode_work w = fill_bytes 8 w.n0 ++ (fill_bytes 8 w.n1 ++ (fill_bytes 8 w.n2 ++ fill_bytes 8 w.n3))

-- State.EncodeTo
unfoldable pub encode_state : State → List ℕ
encode_state s =
    encode_chain_index s.index
    ++ (encode_accumulator s.elements
        ++ (encode_accumulator s.history
            ++ (encode_work s.total_work
                ++ (encode_work s.difficulty
                    ++ (write_time s.last_adjust ++ encode_all write_time s.prev_timestamps)))))

-- numTimestamps; the array has 11 entries.
unfoldable pub num_timestamps : State → ℕ
num_timestamps s = if ltb (add_u64 s.index.height 1) 11 then add_u64 s.index.height 1 else 11

-- BlockInterval, in nanoseconds.
abbrev pub block_interval : ℕ
block_interval = 600_000_000_000

abbrev pub difficulty_adjustment_interval : ℕ
difficulty_adjustment_interval = 2016

-- `r >> n` on a Currency; the fields that `|` joins are disjoint, and a shift by more than 63 is 0.
unfoldable pub shift_right : Currency → ℕ → Currency
shift_right r n =
    new_currency (r.lo / 2 ^ n + (if leb n 64 then r.hi * 2 ^ (64 - n) % 2 ^ 64 else 0))
      (r.hi / 2 ^ n)

-- BlockReward; `none` is the panic of Mul64.
unfoldable pub block_reward : State → Option Currency
block_reward s = elim (mul_64 base_units_per_coin 50) [
  | none ↦ none
  | some r ↦ some (shift_right r (add_u64 s.index.height 1 / 210_000))
]

-- MaturityHeight
unfoldable pub maturity_height : State → ℕ
maturity_height s = add_u64 (add_u64 s.index.height 1) 144

abbrev pub max_block_weight : ℕ
max_block_weight = 1_000_000

-- TransactionWeight
unfoldable pub transaction_weight : Transaction → ℕ
transaction_weight txn = (4 * length txn.inputs + length txn.outputs) % 2 ^ 64

-- The loop of BlockWeight.
unfoldable pub weight_from : ℕ → List Transaction → ℕ
weight_from weight [] = weight
weight_from weight (txn ∷ txns) = weight_from (add_u64 weight (transaction_weight txn)) txns

-- BlockWeight
unfoldable pub block_weight : List Transaction → ℕ
block_weight txns = weight_from 0 txns

module _ (crypto : Crypto) where
  -- Commitment
  unfoldable pub commitment : State → Address → List Transaction → Hash256
  commitment s miner_addr txns =
      let state_hash = crypto.sum512_256 (encode_state s) in
      let txns_hash =
        crypto.sum512_256 (write_prefix (length txns) ++ encode_all (transaction_id crypto) txns) in
      crypto.sum512_256
        (write_string "sunyata/commitment" ++ (state_hash ++ (miner_addr ++ txns_hash)))

  -- InputSigHash
  unfoldable pub input_sig_hash : Transaction → Hash256
  input_sig_hash txn =
      crypto.sum512_256 (write_string "sunyata/sig/transactioninput" ++ semantic_bytes txn)
