-- ===== src/Merkle/Hash.antt =====
-- The hashes of accumulator.go.
use sunyata.Common.{ℕ, suc, Bool, List, [], ◌∷◌, ◌++◌, if◌then◌else◌}
use sunyata.Types.{Crypto, Hash256, StateElement, OutputElement, ChainIndex}
use sunyata.Encoding.{write_string, write_uint64, encode_element_id, encode_output}
use sunyata.Merkle.Bits.{bit}

pub record ElementLeaf : Type 0 where
  pub state_element : StateElement
  pub open state_element use *
  pub element_hash : Hash256
  pub spent : Bool

module _ (crypto : Crypto) where
  -- NodeHash
  unfoldable pub node_hash : Hash256 → Hash256 → Hash256
  node_hash left right = crypto.sum512_256 (1 ∷ left ++ right)

  -- The loop of ProofRoot, at proof element `i`.
  unfoldable pub proof_root_from : ℕ → Hash256 → ℕ → List Hash256 → Hash256
  proof_root_from i root leaf_index [] = root
  proof_root_from i root leaf_index (h ∷ proof) =
      proof_root_from (suc i) (if bit leaf_index i then node_hash h root else node_hash root h)
        leaf_index proof

  -- ProofRoot
  unfoldable pub proof_root : Hash256 → ℕ → List Hash256 → Hash256
  unfolding proof_root_from
  proof_root leaf_hash leaf_index proof = proof_root_from 0 leaf_hash leaf_index proof

  -- ElementLeaf.Hash
  unfoldable pub leaf_hash : ElementLeaf → Hash256
  leaf_hash l =
      crypto.sum512_256
        (0 ∷ l.element_hash ++ (write_uint64 l.leaf_index ++ (if l.spent then 1 else 0) ∷ []))

  -- ElementLeaf.ProofRoot
  unfoldable pub leaf_proof_root : ElementLeaf → Hash256
  leaf_proof_root l = proof_root (leaf_hash l) l.leaf_index l.merkle_proof

  -- OutputLeaf
  unfoldable pub output_leaf : OutputElement → Bool → ElementLeaf
  output_leaf e spent = record {
    state_element = e.state_element;
    element_hash = crypto.sum512_256 (
        write_string "sunyata/leaf/output"
        ++ (encode_element_id e.id ++ (encode_output e.output ++ write_uint64 e.maturity_height)));
    spent = spent;
  }

  -- historyLeafHash
  unfoldable pub history_leaf_hash : ChainIndex → Hash256
  history_leaf_hash index = crypto.sum512_256 (0 ∷ write_uint64 index.height ++ index.id)

  -- historyProofRoot
  unfoldable pub history_proof_root : ChainIndex → List Hash256 → Hash256
  history_proof_root index proof = proof_root (history_leaf_hash index) index.height proof
