-- ===== src/Identity.antt =====
-- sunyata.go: the identifiers, which are hashes of an encoding.
use sunyata.Common.{ℕ, List, ◌++◌, length}
use sunyata.Common.Word.{sub_u64}
use sunyata.Types.{
  Address, BlockId, TransactionId, PublicKey, ChainIndex, ElementId, Input, Transaction,
  BlockHeader, Block, Crypto, text_bytes,
}
use sunyata.Encoding.{
  write_string, write_prefix, write_uint64, unix, encode_all, encode_element_id, encode_output,
  encode_currency,
}

abbrev pub encode_parent_id : Input → List ℕ
encode_parent_id in' = encode_element_id in'.parent.id

-- What Transaction.ID and InputSigHash hash behind their tags.
unfoldable pub semantic_bytes : Transaction → List ℕ
semantic_bytes txn =
    write_prefix (length txn.inputs)
    ++ (encode_all encode_parent_id txn.inputs
        ++ (write_prefix (length txn.outputs)
            ++ (encode_all encode_output txn.outputs ++ encode_currency txn.miner_fee)))

-- BlockHeader.ParentIndex
unfoldable pub parent_index : BlockHeader → ChainIndex
parent_index h = record { height = sub_u64 h.height 1; id = h.parent_id }

module _ (crypto : Crypto) where
  -- PublicKey.Address
  unfoldable pub address : PublicKey → Address
  address pk = crypto.sum512_256 pk

  -- Transaction.ID
  unfoldable pub transaction_id : Transaction → TransactionId
  transaction_id txn =
      crypto.sum512_256 (write_string "sunyata/id/transaction" ++ semantic_bytes txn)

  -- Transaction.OutputID
  unfoldable pub output_id : Transaction → ℕ → ElementId
  output_id txn i = record { source = transaction_id txn; index = i }

  -- BlockHeader.ID
  unfoldable pub header_id : BlockHeader → BlockId
  header_id h = crypto.sum512_256 (
      text_bytes "sunyata/id/block"
      ++ (write_uint64 h.nonce ++ (write_uint64 (unix h.timestamp) ++ h.commitment)))

  -- BlockHeader.Index
  unfoldable pub header_index : BlockHeader → ChainIndex
  header_index h = record { height = h.height; id = header_id h }

  -- Block.Index
  unfoldable pub block_index : Block → ChainIndex
  block_index b = header_index b.header

  -- Block.MinerOutputID
  unfoldable pub miner_output_id : Block → ElementId
  miner_output_id b = record { source = header_id b.header; index = 0 }
