-- ===== src/Encoding.antt =====
-- encoding.go: the bytes that an Encoder writes. Its 1 KB buffer and the write errors of the
-- underlying stream are left out: an EncodeTo method is the list of the bytes it writes.
pub mod Decoder
pub mod Fields
pub mod RoundTrip
use sunyata.Common.{
  ℕ, zero, suc, ◌+◌, ◌-◌, ◌/◌, ◌%◌, ◌^◌, Bool, List, [], ◌∷◌, ◌++◌, length, if◌then◌else◌,
}
use sunyata.Currency.{Currency}
use Prim.Native.String.{String}
use sunyata.Types.{
  Hash256, ChainIndex, ElementId, Output, StateElement, OutputElement, Input, Transaction,
  BlockHeader, Time, text_bytes,
}

-- `binary.LittleEndian.PutUint64` and its kin: `n` bytes, least significant first.
unfoldable pub little_endian : ℕ → ℕ → List ℕ
little_endian zero u = []
little_endian (suc n) u = (u % 256) ∷ little_endian n (u / 256)

unfoldable pub write_bool : Bool → List ℕ
write_bool b = (if b then 1 else 0) ∷ []

unfoldable pub write_uint8 : ℕ → List ℕ
write_uint8 u = u ∷ []

unfoldable pub write_uint64 : ℕ → List ℕ
write_uint64 u = little_endian 8 u

unfoldable pub write_prefix : ℕ → List ℕ
write_prefix i = write_uint64 i

-- `uint64(t.Unix())`; January 1 of year 1 is 62135596800 seconds before 1970.
unfoldable pub unix : Time → ℕ
unix t = (t / 1_000_000_000 + (2 ^ 64 - 62_135_596_800)) % 2 ^ 64

unfoldable pub write_time : Time → List ℕ
write_time t = write_uint64 (unix t)

unfoldable pub write_bytes : List ℕ → List ℕ
write_bytes b = write_prefix (length b) ++ b

unfoldable pub write_string : String → List ℕ
write_string s = write_bytes (text_bytes s)

-- `for _, x := range xs { x.EncodeTo(e) }`
unfoldable pub encode_all {ℓ} : {A : Type ℓ} → (A → List ℕ) → List A → List ℕ
encode_all f [] = []
encode_all f (x ∷ xs) = f x ++ encode_all f xs

abbrev pub encode_hash : Hash256 → List ℕ
encode_hash h = h

unfoldable pub encode_currency : Currency → List ℕ
encode_currency c = write_uint64 c.lo ++ write_uint64 c.hi

unfoldable pub encode_chain_index : ChainIndex → List ℕ
encode_chain_index index = write_uint64 index.height ++ index.id

unfoldable pub encode_block_header : BlockHeader → List ℕ
encode_block_header h =
    write_uint64 h.height
    ++ (h.parent_id
        ++ (write_uint64 h.nonce ++ (write_time h.timestamp ++ (h.miner_address ++ h.commitment))))

unfoldable pub encode_element_id : ElementId → List ℕ
encode_element_id id = id.source ++ write_uint64 id.index

unfoldable pub encode_output : Output → List ℕ
encode_output out = encode_currency out.value ++ out.address

unfoldable pub write_merkle_proof : List Hash256 → List ℕ
write_merkle_proof proof = write_prefix (length proof) ++ encode_all encode_hash proof

unfoldable pub encode_state_element : StateElement → List ℕ
encode_state_element se =
    encode_element_id se.id ++ (write_uint64 se.leaf_index ++ write_merkle_proof se.merkle_proof)

unfoldable pub encode_output_element : OutputElement → List ℕ
encode_output_element oe =
    encode_state_element oe.state_element
    ++ (encode_output oe.output ++ write_uint64 oe.maturity_height)

unfoldable pub encode_input : Input → List ℕ
encode_input in' = encode_output_element in'.parent ++ (in'.public_key ++ in'.signature)

unfoldable pub encode_transaction : Transaction → List ℕ
encode_transaction txn =
    write_uint8 1
    ++ (write_prefix (length txn.inputs)
        ++ (encode_all encode_input txn.inputs
            ++ (write_prefix (length txn.outputs)
                ++ (encode_all encode_output txn.outputs ++ encode_currency txn.miner_fee))))
