-- ===== src/Types.antt =====
-- sunyata.go: hashes, identifiers, elements, transactions and blocks. A byte array is a list of
-- bytes, an embedded struct an opened field.
use Prim.Native.Char.{code}
use Prim.Native.String.{String}
use sunyata.Common.{ℕ, ◌-◌, ◌^◌, Bool, ◌&&◌, List, [], ◌∷◌, ◌==◌, bytes_eq}
use sunyata.Currency.{Currency}

abbrev pub Hash256 : Type 0
Hash256 = List ℕ

abbrev pub Address : Type 0
Address = Hash256

abbrev pub BlockId : Type 0
BlockId = Hash256

abbrev pub TransactionId : Type 0
TransactionId = Hash256

abbrev pub PublicKey : Type 0
PublicKey = List ℕ

abbrev pub Signature : Type 0
Signature = List ℕ

-- Nanoseconds since the zero `time.Time`, January 1 of year 1; no time stands before it.
abbrev pub Time : Type 0
Time = ℕ

-- The bytes of an ASCII text.
abbrev pub text_bytes : String → List ℕ
text_bytes String.[] = []
text_bytes (String.◌∷◌ c s) = code c ∷ text_bytes s

-- What the code calls outside this repository: SHA-512/256 and the check of Ed25519 signatures.
pub record Crypto : Type 0 where
  pub sum512_256 : List ℕ → Hash256
  pub verify : PublicKey → Hash256 → Signature → Bool

abbrev pub ephemeral_leaf_index : ℕ
ephemeral_leaf_index = 2 ^ 64 - 1

pub record ChainIndex : Type 0 where
  pub height : ℕ
  pub id : BlockId

pub record ElementId : Type 0 where
  pub source : Hash256
  pub index : ℕ

-- Go's `==` on these two structs.
unfoldable pub chain_index_eq : ChainIndex → ChainIndex → Bool
chain_index_eq a b = (a.height == b.height) && bytes_eq a.id b.id

unfoldable pub element_id_eq : ElementId → ElementId → Bool
element_id_eq a b = bytes_eq a.source b.source && (a.index == b.index)

pub record Output : Type 0 where
  pub value : Currency
  pub address : Address

pub record StateElement : Type 0 where
  pub id : ElementId
  pub leaf_index : ℕ
  pub merkle_proof : List Hash256

pub record OutputElement : Type 0 where
  pub state_element : StateElement
  pub open state_element use *
  pub output : Output
  pub open output use *
  pub maturity_height : ℕ

pub record Input : Type 0 where
  pub parent : OutputElement
  pub public_key : PublicKey
  pub signature : Signature

pub record Transaction : Type 0 where
  pub inputs : List Input
  pub outputs : List Output
  pub miner_fee : Currency

pub record BlockHeader : Type 0 where
  pub height : ℕ
  pub parent_id : BlockId
  pub nonce : ℕ
  pub timestamp : Time
  pub miner_address : Address
  pub commitment : Hash256

pub record Block : Type 0 where
  pub header : BlockHeader
  pub transactions : List Transaction
