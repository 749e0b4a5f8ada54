-- ===== src/Tests/Codec.antt =====
-- A transaction and a header with hashes of full length.
use sunyata.Common.{◌*◌, ◌≡◌, refl, arith, some, [], ◌∷◌, ◌++◌, replicate}
use sunyata.Currency.{IsCurrency}
use sunyata.Types.{OutputElement, Transaction, BlockHeader}
use sunyata.Encoding.{encode_transaction, encode_block_header}
use sunyata.Encoding.Decoder.{decode_transaction, decode_block_header}
use sunyata.Encoding.RoundTrip.{
  IsTransaction, IsHeader, decode_transaction-encode_transaction,
  decode_block_header-encode_block_header,
}
use sunyata.Tests.Data.{coins}

abbrev full_parent : OutputElement
full_parent = record {
  state_element = record {
    id = record { source = replicate 32 1; index = 0 };
    leaf_index = 6;
    merkle_proof = replicate 32 2 ∷ replicate 32 3 ∷ [];
  };
  output = record { value = coins; address = replicate 32 7 };
  maturity_height = 9;
}

abbrev full_payment : Transaction
full_payment = record {
  inputs =
      record { parent = full_parent; public_key = replicate 32 7; signature = replicate 64 9 } ∷ [];
  outputs = record { value = coins; address = replicate 32 8 } ∷ [];
  miner_fee = record { lo = 0; hi = 0 };
}

coins-IsCurrency : IsCurrency coins
coins-IsCurrency = record { lo_fits = omega arith; hi_fits = omega arith }

full_payment-IsTransaction : IsTransaction full_payment
full_payment-IsTransaction = record {
  inputs_lem = (
    record {
      parent_lem = record {
        state_lem = record {
          id_lem = record { source_lem = refl; index_fits = omega arith };
          leaf_index_fits = omega arith;
          proof_lem = (refl, (refl, tt));
          proof_fits = omega arith;
        };
        output_lem = record { value_lem = coins-IsCurrency; address_lem = refl };
        maturity_fits = omega arith;
      };
      key_lem = refl;
      signature_lem = refl;
    },
    tt,
  );
  inputs_fit = omega arith;
  outputs_lem = (record { value_lem = coins-IsCurrency; address_lem = refl }, tt);
  outputs_fit = omega arith;
  fee_lem = record { lo_fits = omega arith; hi_fits = omega arith };
}

decode_transaction-encode_transaction_example :
    decode_transaction (encode_transaction full_payment ++ 1 ∷ 2 ∷ [])
    ≡ some (full_payment, 1 ∷ 2 ∷ [])
decode_transaction-encode_transaction_example =
    decode_transaction-encode_transaction full_payment (1 ∷ 2 ∷ []) full_payment-IsTransaction

-- 1 January 2022.
abbrev full_header : BlockHeader
full_header = record {
  height = 12;
  parent_id = replicate 32 1;
  nonce = 77;
  timestamp = 63_776_592_000 * 1_000_000_000;
  miner_address = replicate 32 2;
  commitment = replicate 32 3;
}

full_header-IsHeader : IsHeader full_header
full_header-IsHeader = record {
  height_fits = omega arith;
  parent_lem = refl;
  nonce_fits = omega arith;
  whole_seconds = refl;
  timestamp_fits = omega arith;
  address_lem = refl;
  commitment_lem = refl;
}

decode_block_header-encode_block_header_example :
    decode_block_header (encode_block_header full_header ++ 5 ∷ []) ≡ some (full_header, 5 ∷ [])
decode_block_header-encode_block_header_example =
    decode_block_header-encode_block_header full_header (5 ∷ []) full_header-IsHeader
