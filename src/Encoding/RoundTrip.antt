-- ===== src/Encoding/RoundTrip.antt =====
-- What an EncodeTo method writes, the DecodeFrom method reads back.
use mathlib.Core.Option.{some}
use sunyata.Common.{
  ℕ, ◌/◌, ◌%◌, ◌^◌, ◌≤◌, ◌<◌, ◌≡◌, refl, arith, List, [], ◌∷◌, ◌++◌, length, length-append, All,
  All-map, subst,
}
use sunyata.Currency.{IsCurrency}
use sunyata.Types.{
  Hash256, Output, StateElement, OutputElement, Input, Transaction, BlockHeader, Time,
}
use sunyata.Encoding.{
  write_prefix, unix, write_time, encode_all, encode_hash, encode_currency, encode_block_header,
  encode_output, write_merkle_proof, encode_state_element, encode_output_element, encode_input,
  write_uint8, encode_transaction,
}
use sunyata.Encoding.Fields.{
  Reads, Reads-then, Reads-last, IsHash, IsElementId, IsOutput, uint64-Reads, currency-Reads,
  hash-Reads, element_id-Reads, output-Reads, prefix-then, read_all-Reads, encode_all-long,
  read-Reads,
}
use sunyata.Encoding.Decoder.{
  from_little_endian, read_uint8, from_unix, read_time, decode_hash, decode_block_header,
  decode_output, read_merkle_proof, decode_state_element, decode_output_element, decode_input,
  decode_body, decode_transaction,
}

proof-Reads :
    (proof : List Hash256)
    → length proof < 2 ^ 64
    → All IsHash proof
    → Reads read_merkle_proof (write_merkle_proof proof) proof
unfolding read_merkle_proof write_merkle_proof
proof-Reads proof few hashes =
    prefix-then _ (length proof) (encode_all encode_hash proof) few
      (encode_all-long encode_hash proof (All-map _ _ (λ h len. omega (arith, len)) proof hashes))
      (read_all-Reads encode_hash decode_hash proof (All-map _ _ hash-Reads proof hashes))

pub record IsStateElement (se : StateElement) : Type 0 where
  pub id_lem : IsElementId se.id
  pub leaf_index_fits : se.leaf_index < 2 ^ 64
  pub proof_lem : All IsHash se.merkle_proof
  pub proof_fits : length se.merkle_proof < 2 ^ 64

state_element-Reads :
    (se : StateElement)
    → IsStateElement se
    → Reads decode_state_element (encode_state_element se) se
unfolding decode_state_element encode_state_element
state_element-Reads se ok = Reads-then _ (element_id-Reads se.id ok.id_lem) (
    Reads-then _ (uint64-Reads se.leaf_index ok.leaf_index_fits)
      (Reads-last _ (proof-Reads se.merkle_proof ok.proof_fits ok.proof_lem)))

pub record IsOutputElement (oe : OutputElement) : Type 0 where
  pub state_lem : IsStateElement oe.state_element
  pub output_lem : IsOutput oe.output
  pub maturity_fits : oe.maturity_height < 2 ^ 64

output_element-Reads :
    (oe : OutputElement)
    → IsOutputElement oe
    → Reads decode_output_element (encode_output_element oe) oe
unfolding decode_output_element encode_output_element
output_element-Reads oe ok = Reads-then _ (state_element-Reads oe.state_element ok.state_lem) (
    Reads-then _ (output-Reads oe.output ok.output_lem)
      (Reads-last _ (uint64-Reads oe.maturity_height ok.maturity_fits)))

pub record IsInput (in' : Input) : Type 0 where
  pub parent_lem : IsOutputElement in'.parent
  pub key_lem : length in'.public_key ≡ 32
  pub signature_lem : length in'.signature ≡ 64

input-Reads : (in' : Input) → IsInput in' → Reads decode_input (encode_input in') in'
unfolding decode_input encode_input
input-Reads in' ok = Reads-then _ (output_element-Reads in'.parent ok.parent_lem) (
    Reads-then _ (read-Reads 32 in'.public_key ok.key_lem)
      (Reads-last _ (read-Reads 64 in'.signature ok.signature_lem)))

-- What the types of Go guarantee of a transaction: hashes and keys of 32 bytes, signatures of 64,
-- 64-bit words, and fewer than 2^64 items in a slice.
pub record IsTransaction (txn : Transaction) : Type 0 where
  pub inputs_lem : All IsInput txn.inputs
  pub inputs_fit : length txn.inputs < 2 ^ 64
  pub outputs_lem : All IsOutput txn.outputs
  pub outputs_fit : length txn.outputs < 2 ^ 64
  pub fee_lem : IsCurrency txn.miner_fee

input_long : (in' : Input) → IsInput in' → 1 ≤ length (encode_input in')
unfolding encode_input
input_long in' ok = omega (
  arith,
  length-append (encode_output_element in'.parent) (in'.public_key ++ in'.signature),
  length-append in'.public_key in'.signature,
  ok.key_lem,
)

output_long : (out : Output) → IsOutput out → 1 ≤ length (encode_output out)
unfolding encode_output
output_long out ok =
    omega (arith, length-append (encode_currency out.value) out.address, ok.address_lem)

long_enough : {n : ℕ} (xs ys : List ℕ) → n ≤ length xs → n ≤ length (xs ++ ys)
long_enough xs ys le = omega (arith, length-append xs ys, le)

body-Reads :
    (txn : Transaction)
    → IsTransaction txn
    → Reads decode_body
        (write_prefix (length txn.inputs)
          ++ (encode_all encode_input txn.inputs
              ++ (write_prefix (length txn.outputs)
                  ++ (encode_all encode_output txn.outputs ++ encode_currency txn.miner_fee))))
        txn
unfolding decode_body
body-Reads txn ok =
    prefix-then _ (length txn.inputs) _ ok.inputs_fit
      (long_enough (encode_all encode_input txn.inputs) _
        (encode_all-long encode_input txn.inputs (All-map _ _ input_long txn.inputs ok.inputs_lem)))
      (Reads-then _
        (read_all-Reads encode_input decode_input txn.inputs
          (All-map _ _ input-Reads txn.inputs ok.inputs_lem))
        (prefix-then _ (length txn.outputs) _ ok.outputs_fit
          (long_enough (encode_all encode_output txn.outputs) _ (
            encode_all-long encode_output txn.outputs
              (All-map _ _ output_long txn.outputs ok.outputs_lem)))
          (Reads-then _
            (read_all-Reads encode_output decode_output txn.outputs
              (All-map _ _ output-Reads txn.outputs ok.outputs_lem))
            (Reads-last _ (currency-Reads txn.miner_fee ok.fee_lem)))))

version-Reads : Reads read_uint8 (write_uint8 1) 1
unfolding read_uint8 write_uint8 from_little_endian
version-Reads = Reads-last from_little_endian (read-Reads 1 (1 ∷ []) refl)

transaction-Reads :
    (txn : Transaction) → IsTransaction txn → Reads decode_transaction (encode_transaction txn) txn
unfolding decode_transaction encode_transaction
transaction-Reads txn ok = Reads-then _ version-Reads (body-Reads txn ok)

-- A transaction that is encoded and decoded comes back, with nothing read of what follows it.
pub decode_transaction-encode_transaction :
    (txn : Transaction) (rest : List ℕ)
    → IsTransaction txn
    → decode_transaction (encode_transaction txn ++ rest) ≡ some (txn, rest)
decode_transaction-encode_transaction txn rest ok = (transaction-Reads txn ok).run rest

pub record IsHeader (h : BlockHeader) : Type 0 where
  pub height_fits : h.height < 2 ^ 64
  pub parent_lem : IsHash h.parent_id
  pub nonce_fits : h.nonce < 2 ^ 64
  pub whole_seconds : h.timestamp % 1_000_000_000 ≡ 0
  pub timestamp_fits : h.timestamp / 1_000_000_000 < 2 ^ 63
  pub address_lem : IsHash h.miner_address
  pub commitment_lem : IsHash h.commitment

from_unix-unix :
    (t : Time) → t % 1_000_000_000 ≡ 0 → t / 1_000_000_000 < 2 ^ 63 → from_unix (unix t) ≡ t
unfolding from_unix unix
from_unix-unix t whole fits = ground arith

time-Reads :
    (t : Time)
    → t % 1_000_000_000 ≡ 0
    → t / 1_000_000_000 < 2 ^ 63
    → Reads read_time (write_time t) t
unfolding read_time write_time
time-Reads t whole fits =
    subst (Reads read_time (write_time t)) (from_unix-unix t whole fits)
      (Reads-last _ (uint64-Reads (unix t) (unfold unix in omega arith)))

header-Reads : (h : BlockHeader) → IsHeader h → Reads decode_block_header (encode_block_header h) h
unfolding decode_block_header encode_block_header
header-Reads h ok = Reads-then _ (uint64-Reads h.height ok.height_fits) (
    Reads-then _ (hash-Reads h.parent_id ok.parent_lem) (
      Reads-then _ (uint64-Reads h.nonce ok.nonce_fits) (
        Reads-then _ (time-Reads h.timestamp ok.whole_seconds ok.timestamp_fits) (
          Reads-then _ (hash-Reads h.miner_address ok.address_lem)
            (Reads-last _ (hash-Reads h.commitment ok.commitment_lem))))))

-- A header that is encoded and decoded comes back, when its time is a whole number of seconds less
-- than 2^63 after the zero time; nothing is read of what follows it.
pub decode_block_header-encode_block_header :
    (h : BlockHeader) (rest : List ℕ)
    → IsHeader h
    → decode_block_header (encode_block_header h ++ rest) ≡ some (h, rest)
decode_block_header-encode_block_header h rest ok = (header-Reads h ok).run rest
