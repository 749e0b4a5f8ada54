-- ===== src/Tests/Data.antt =====
-- A transaction, one that spends its output, a block with both, and the state before.
use sunyata.Common.{take, true, false, List, [], ◌∷◌}
use sunyata.Currency.{Currency}
use sunyata.Work.{Work}
use sunyata.Types.{Crypto, OutputElement, Transaction, BlockHeader, Block, ephemeral_leaf_index}
use sunyata.Identity.{transaction_id}
use sunyata.Merkle.Hash.{leaf_hash, output_leaf}
use sunyata.Merkle.Accumulator.{Accumulator}
use sunyata.Consensus.State.{State, commitment}

-- The first bytes as the hash of a text, and every signature as a valid one.
abbrev pub toy : Crypto
toy = record { sum512_256 = λ bytes. take 4 bytes; verify = λ key hash signature. true }

abbrev pub coins : Currency
coins = record { lo = 5; hi = 0 }

abbrev pub parent : OutputElement
parent = record {
  state_element = record {
    id = record { source = 1 ∷ []; index = 0 };
    leaf_index = 0;
    merkle_proof = [];
  };
  output = record { value = coins; address = 7 ∷ [] };
  maturity_height = 0;
}

abbrev pub payment : Transaction
payment = record {
  inputs = record { parent = parent; public_key = 7 ∷ []; signature = 9 ∷ [] } ∷ [];
  outputs = record { value = record { lo = 3; hi = 0 }; address = 8 ∷ [] } ∷ [];
  miner_fee = record { lo = 2; hi = 0 };
}

-- The output of `payment`, before it has a leaf.
abbrev pub fresh : OutputElement
fresh = record {
  state_element = record {
    id = record { source = transaction_id toy payment; index = 0 };
    leaf_index = ephemeral_leaf_index;
    merkle_proof = [];
  };
  output = record { value = record { lo = 3; hi = 0 }; address = 8 ∷ [] };
  maturity_height = 0;
}

abbrev pub passed_on : Transaction
passed_on = record {
  inputs = record { parent = fresh; public_key = 8 ∷ []; signature = 9 ∷ [] } ∷ [];
  outputs = record { value = record { lo = 3; hi = 0 }; address = 7 ∷ [] } ∷ [];
  miner_fee = record { lo = 0; hi = 0 };
}

abbrev pub transactions : List Transaction
transactions = payment ∷ passed_on ∷ []

abbrev pub elements : Accumulator
elements = record { trees = λ h. leaf_hash toy (output_leaf toy parent false); num_leaves = 1 }

abbrev pub no_work : Work
no_work = record { n0 = 0; n1 = 0; n2 = 0; n3 = 0 }

abbrev pub state : State
state = record {
  index = record { height = 0; id = 4 ∷ [] };
  elements = elements;
  history = elements;
  total_work = no_work;
  difficulty = no_work;
  last_adjust = 100;
  prev_timestamps = 100 ∷ 0 ∷ 0 ∷ 0 ∷ 0 ∷ 0 ∷ 0 ∷ 0 ∷ 0 ∷ 0 ∷ 0 ∷ [];
}

abbrev pub header : BlockHeader
header = record {
  height = 1;
  parent_id = 4 ∷ [];
  nonce = 0;
  timestamp = 200;
  miner_address = 7 ∷ [];
  commitment = commitment toy state (7 ∷ []) transactions;
}

abbrev pub block : Block
block = record { header = header; transactions = transactions }
