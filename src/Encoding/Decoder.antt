-- ===== src/Encoding/Decoder.antt =====
-- encoding.go: the Decoder. Its state is the rest of the stream, and `none` stands for a set error:
-- what a DecodeFrom method leaves behind then must not be used.
use sunyata.Common.{
  ℕ, zero, suc, ◌+◌, ◌-◌, ◌*◌, ◌^◌, Bool, true, false, Option, none, some, List, [], ◌∷◌, length,
  take, drop, ltb, ◌==◌, if◌then◌else◌,
}
use sunyata.Currency.{Currency}
use sunyata.Types.{
  Hash256, ChainIndex, ElementId, Output, StateElement, OutputElement, Input, Transaction,
  BlockHeader, Time,
}

abbrev pub Decodes {ℓ} : Type ℓ → Type ℓ
Decodes A = List ℕ → Option (A × List ℕ)

abbrev pub decoded {ℓ} : {A : Type ℓ} → A → Decodes A
decoded a bytes = some (a, bytes)

abbrev pub set_err {ℓ} : {A : Type ℓ} → Decodes A
set_err bytes = none

infixl 5 ◌>>=◌
abbrev pub ◌>>=◌ {ℓ κ} : {A : Type ℓ} {B : Type κ} → Decodes A → (A → Decodes B) → Decodes B
(d >>= f) bytes = elim (d bytes) [ none ↦ none | some (a, rest) ↦ f a rest ]

-- Decoder.Read of `n` bytes.
unfoldable pub read : ℕ → Decodes (List ℕ)
read n bytes = if ltb (length bytes) n then none else some (take n bytes, drop n bytes)

-- `binary.LittleEndian.Uint64`
unfoldable pub from_little_endian : List ℕ → ℕ
from_little_endian [] = 0
from_little_endian (b ∷ bs) = b + 256 * from_little_endian bs

unfoldable pub read_uint8 : Decodes ℕ
read_uint8 = do b ← read 1; decoded (from_little_endian b)

unfoldable pub read_bool : Decodes Bool
read_bool = do
  b ← read_uint8
  if b == 0 then decoded false else if b == 1 then decoded true else set_err

unfoldable pub read_uint64 : Decodes ℕ
read_uint64 = do b ← read 8; decoded (from_little_endian b)

-- The rest of the stream, `d.lr.N` bytes, is long enough for the prefix.
unfoldable pub read_prefix : Decodes ℕ
read_prefix = do n ← read_uint64; λ rest. if ltb (length rest) n then none else some (n, rest)

-- `time.Unix(int64(u), 0)`; a time before the zero time is taken as that.
unfoldable pub from_unix : ℕ → Time
from_unix u =
    (if ltb u (2 ^ 63) then u + 62_135_596_800 else u + 62_135_596_800 - 2 ^ 64) * 1_000_000_000

unfoldable pub read_time : Decodes Time
read_time = do u ← read_uint64; decoded (from_unix u)

unfoldable pub read_bytes : Decodes (List ℕ)
read_bytes = do n ← read_prefix; read n

-- `for i := range xs { xs[i].DecodeFrom(d) }`
unfoldable pub read_all {ℓ} : {A : Type ℓ} → Decodes A → ℕ → Decodes (List A)
read_all d zero = decoded []
read_all d (suc n) = do x ← d; xs ← read_all d n; decoded (x ∷ xs)

unfoldable pub decode_hash : Decodes Hash256
decode_hash = read 32

unfoldable pub decode_currency : Decodes Currency
decode_currency = do lo ← read_uint64; hi ← read_uint64; decoded (record { lo = lo; hi = hi })

unfoldable pub decode_chain_index : Decodes ChainIndex
decode_chain_index = do
  height ← read_uint64
  id ← decode_hash
  decoded (record { height = height; id = id })

unfoldable pub decode_block_header : Decodes BlockHeader
decode_block_header = do
  height ← read_uint64
  parent_id ← decode_hash
  nonce ← read_uint64
  timestamp ← read_time
  miner_address ← decode_hash
  commitment ← decode_hash
  decoded (record {
    height = height;
    parent_id = parent_id;
    nonce = nonce;
    timestamp = timestamp;
    miner_address = miner_address;
    commitment = commitment;
  })

unfoldable pub decode_element_id : Decodes ElementId
decode_element_id = do
  source ← decode_hash
  index ← read_uint64
  decoded (record { source = source; index = index })

unfoldable pub decode_output : Decodes Output
decode_output = do
  value ← decode_currency
  address ← decode_hash
  decoded (record { value = value; address = address })

unfoldable pub read_merkle_proof : Decodes (List Hash256)
read_merkle_proof = do n ← read_prefix; read_all decode_hash n

unfoldable pub decode_state_element : Decodes StateElement
decode_state_element = do
  id ← decode_element_id
  leaf_index ← read_uint64
  merkle_proof ← read_merkle_proof
  decoded (record { id = id; leaf_index = leaf_index; merkle_proof = merkle_proof })

unfoldable pub decode_output_element : Decodes OutputElement
decode_output_element = do
  state_element ← decode_state_element
  output ← decode_output
  maturity_height ← read_uint64
  decoded
      (record { state_element = state_element; output = output; maturity_height = maturity_height })

unfoldable pub decode_input : Decodes Input
decode_input = do
  parent ← decode_output_element
  public_key ← read 32
  signature ← read 64
  decoded (record { parent = parent; public_key = public_key; signature = signature })

-- What follows the version of a transaction.
unfoldable pub decode_body : Decodes Transaction
decode_body = do
  inputs_len ← read_prefix
  inputs ← read_all decode_input inputs_len
  outputs_len ← read_prefix
  outputs ← read_all decode_output outputs_len
  miner_fee ← decode_currency
  decoded (record { inputs = inputs; outputs = outputs; miner_fee = miner_fee })

unfoldable pub decode_transaction : Decodes Transaction
decode_transaction = do version ← read_uint8; if version == 1 then decode_body else set_err
