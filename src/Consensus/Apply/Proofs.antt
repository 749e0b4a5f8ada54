-- ===== src/Consensus/Apply/Proofs.antt =====
-- UpdateTransactionProofs after ApplyBlock: what was in the accumulator and is not spent in the block
-- is in the new accumulator.
use sunyata.Common.{
  arith, ℕ, ◌+◌, ◌^◌, ◌≤◌, ◌<◌, ◌≡◌, ◌⊎◌, refl, sym, ap, ap₂, ◌∙◌, inl, inr, true, false, some,
  List, [], ◌∷◌, length, map, All, Bool-cases, Pairs, ltb, not, ◌&&◌, ◌==◌, ==_iff, Option-cases,
}
use sunyata.Types.{
  Crypto, Hash256, StateElement, OutputElement, Input, Transaction, BlockHeader, Block,
  ephemeral_leaf_index,
}
use sunyata.Merkle.Hash.{ElementLeaf, leaf_hash, leaf_proof_root, output_leaf}
use sunyata.Merkle.Accumulator.{Accumulator, contains_leaf, contains_unspent}
use sunyata.Merkle.Accumulator.Tracking.{Represents, IsProof}
use sunyata.Merkle.Accumulator.Leaves.{Continues}
use sunyata.Merkle.Update.{>>=-eq-some}
use sunyata.Merkle.Update.Recompute.{Touches}
use sunyata.Merkle.Update.Groups.{Distinct}
use sunyata.Merkle.Elements.{ElementApplyUpdate, apply_element_proof}
use sunyata.Merkle.Elements
use sunyata.Merkle.History
use sunyata.Identity.{block_index}
use sunyata.Merkle.Elements.Applied.{apply_element_proof-contains}
use sunyata.Consensus.State.{State}
use sunyata.Consensus.Header.{apply_header, retarget}
use sunyata.Consensus.Update.{updated_in_block, created_in_block}
use sunyata.Consensus.Apply.{
  ApplyUpdate, attaches, ephemeral_spent, created_leaves, place_outputs, update_inputs,
  apply_transaction_proofs, apply_block,
}

some_eq : {A : Type 0} {x y : A} → some x ≡ some y → x ≡ y
some_eq e = cc e

-- Only the history, the work and the index change with the header.
apply_header-elements :
    (crypto : Crypto) (s s' : State) (h : BlockHeader)
    → apply_header crypto s h ≡ some s'
    → s'.elements ≡ s.elements
unfolding apply_header
apply_header-elements crypto s s' h e = elim (Bool-cases (h.height == 0)) [
  | inl z ↦ let e' = rw z at e in ap (λ (x : State). x.elements) (sym (some_eq e'))
  | inr nz ↦ elim (Option-cases (retarget s h)) [
    | inl failed ↦ let e' = rw (nz, failed) at e in cc e'
    | inr (r, found) ↦
        let e' = rw (nz, found) at e in ap (λ (x : State). x.elements) (sym (some_eq e'))
  ]
]

contains-unspent :
    (crypto : Crypto) (acc acc' : Accumulator) (oe : OutputElement) (e : StateElement)
    → acc ≡ acc'
    → e.id ≡ oe.id
    → contains_leaf crypto acc (record (output_leaf crypto oe false) { state_element = e }) ≡ true
    → contains_unspent crypto acc' (record oe { state_element = e }) ≡ true
unfolding contains_unspent output_leaf contains_leaf leaf_proof_root leaf_hash
contains-unspent crypto acc acc' oe e same id within = rw (id, sym same) within

module _ (crypto : Crypto) where
  -- The parent is ephemeral, or it has its proof in the old state and is unspent in the new one.
  abbrev pub Kept : (ℕ → Hash256) → (ℕ → Hash256) → ℕ → Input → Type 0
  Kept leaf leaf' n in' =
      (in'.parent.leaf_index ≡ ephemeral_leaf_index)
      ⊎ (IsProof crypto leaf n in'.parent.leaf_index in'.parent.merkle_proof
          × (leaf_hash crypto (output_leaf crypto in'.parent false) ≡ leaf' in'.parent.leaf_index))

  -- The parent is ephemeral, or an unspent element.
  abbrev pub Present : Accumulator → Input → Type 0
  Present acc in' =
      (in'.parent.leaf_index ≡ ephemeral_leaf_index)
      ⊎ (contains_unspent crypto acc in'.parent ≡ true)

-- The second input is the first one with another proof of its parent.
abbrev pub Refreshed : Input → Input → Type 0
Refreshed old new = new ≡ record old {
  parent = record old.parent {
    state_element = record old.parent.state_element { merkle_proof = new.parent.merkle_proof };
  };
}

-- The leaves that ApplyBlock updates, and those that it adds.
abbrev pub spent_leaves : Crypto → Block → List ElementLeaf
spent_leaves crypto b = map (λ p. p.1) (updated_in_block crypto true b.transactions)

module _ (crypto : Crypto) (s : State) (b : Block) (au : ApplyUpdate) (outputs : List OutputElement)
    (created : created_in_block crypto s b ≡ some outputs)
    (applied : apply_block crypto s b ≡ some au) where
  abbrev added_leaves : List ElementLeaf
  added_leaves = created_leaves crypto (ephemeral_spent b.transactions) outputs

  -- The part of ApplyBlock that concerns the elements.
  apply_block-elements :
      (added' : List ElementLeaf) × (Elements.apply_block crypto s.elements
          (spent_leaves crypto b)
          added_leaves
        ≡ some (au.state.elements, au.elements, added'))
  unfolding apply_block
  apply_block-elements = elim (Bool-cases (ltb 0 s.index.height && not (attaches s b.header))) [
    | inl wrong ↦ let e = rw wrong at applied in cc e
    | inr right ↦
        let e = rw (right, created) at applied in
        let ((elements, eau, added'), found, rest) =
          >>=-eq-some (Elements.apply_block crypto s.elements (spent_leaves crypto b) added_leaves)
            _ e in
        let (outputs', placed, rest') = >>=-eq-some (place_outputs outputs added') _ rest in
        let (s', header, last) =
          >>=-eq-some
            (apply_header crypto
              (record s {
                elements = elements;
                history = (History.apply_block crypto s.history (block_index crypto b)).0;
              })
              b.header)
            _ rest' in
        let same = some_eq last in
        (
          added',
          found
              ∙ ap₂ (λ (a : Accumulator) u. some (a, u, added'))
                  (sym (apply_header-elements crypto _ s' b.header header)
                    ∙ ap (λ (u : ApplyUpdate). u.state.elements) same)
                  (ap (λ (u : ApplyUpdate). u.elements) same),
        )
  ]

  module _ (leaf leaf' : ℕ → Hash256) (rep : Represents crypto leaf s.elements)
      (small : s.elements.num_leaves ≤ 2 ^ 63)
      (room : s.elements.num_leaves + length added_leaves < 2 ^ 64)
      (distinct : Distinct (spent_leaves crypto b))
      (proofs : All
        (λ l. IsProof crypto leaf s.elements.num_leaves l.leaf_index l.merkle_proof)
        (spent_leaves crypto b))
      (hashed : All (λ l. leaf_hash crypto l ≡ leaf' l.leaf_index) (spent_leaves crypto b))
      (others : (m : ℕ)
        → m < s.elements.num_leaves
        → (leaf' m ≡ leaf m) ⊎ Touches m (spent_leaves crypto b))
      (continues : Continues crypto leaf' s.elements.num_leaves added_leaves) where
    Kept-element :
        (in' : Input)
        → IsProof crypto leaf s.elements.num_leaves in'.parent.leaf_index in'.parent.merkle_proof
        → leaf_hash crypto (output_leaf crypto in'.parent false) ≡ leaf' in'.parent.leaf_index
        → (e : StateElement) × (apply_element_proof crypto au.elements in'.parent.state_element
            ≡ some e)
          × (e ≡ record in'.parent.state_element { merkle_proof = e.merkle_proof })
          × (contains_unspent crypto au.state.elements (record in'.parent { state_element = e })
              ≡ true)
    unfolding contains_unspent output_leaf
    Kept-element in' p hash =
        let (added', found) = apply_block-elements in
        let (acc', eau, added'', e, found', updated, only, p', within) =
          apply_element_proof-contains crypto leaf leaf' s.elements (spent_leaves crypto b)
            added_leaves rep small room distinct proofs hashed others continues
            (output_leaf crypto in'.parent false) p hash in
        let same = some_eq (sym found' ∙ found) in
        (
          e,
          ap (λ t. apply_element_proof crypto t.1 in'.parent.state_element) (sym same) ∙ updated,
          only,
          contains-unspent crypto acc' au.state.elements in'.parent e (ap (λ t. t.0) same)
              (ap (λ (x : StateElement). x.id) only) within,
        )

    Kept-inputs :
        (ins : List Input)
        → All (Kept crypto leaf leaf' s.elements.num_leaves) ins
        → (ins' : List Input) × (update_inputs (apply_element_proof crypto au.elements) ins
            ≡ some ins')
          × Pairs Refreshed ins ins'
          × All (Present crypto au.state.elements) ins'
    unfolding update_inputs
    Kept-inputs [] kept = ([], refl, tt, tt)
    Kept-inputs (in' ∷ ins) kept =
        let (ins', updated, same, present) = Kept-inputs ins kept.1 in
        elim (Bool-cases (in'.parent.leaf_index == ephemeral_leaf_index)) [
          | inl ephemeral ↦ (
            in' ∷ ins',
            rw (ephemeral, updated) refl,
            (refl, same),
            (inl ((==_iff in'.parent.leaf_index ephemeral_leaf_index).0 ephemeral), present),
          )
          | inr mined ↦ elim kept.0 [
            | inl q ↦ absurd (ground arith)
            | inr (p, hash) ↦
                let (e, element, only, within) = Kept-element in' p hash in
                (
                  record in' { parent = record in'.parent { state_element = e } } ∷ ins',
                  rw (mined, element, updated) refl,
                  (
                    ap
                        (λ (x : StateElement).
                          let new : Input = record in' {
                            parent = record in'.parent { state_element = x };
                          } in
                          new)
                        only,
                    same,
                  ),
                  (inr within, present),
                )
          ]
        ]

    -- After ApplyBlock, UpdateTransactionProofs returns on a transaction whose inputs are ephemeral or
    -- have their proofs in the old state and are not spent in the block. The result has the same
    -- inputs in the same order, in which only the proofs of the parents differ, the same outputs and
    -- the same fee; the parents of all its inputs are ephemeral or unspent elements of the new state. The block's own inputs have
    -- different leaves and proofs in the old state, which stands for `leaf`, as `leaf'` does for the
    -- state with the block's inputs spent and its outputs added.
    pub apply_transaction_proofs-Present :
        (txn : Transaction)
        → All (Kept crypto leaf leaf' s.elements.num_leaves) txn.inputs
        → (txn' : Transaction) × (apply_transaction_proofs crypto au txn ≡ some txn')
          × (txn' ≡ record txn { inputs = txn'.inputs })
          × Pairs Refreshed txn.inputs txn'.inputs
          × All (Present crypto au.state.elements) txn'.inputs
    unfolding apply_transaction_proofs
    apply_transaction_proofs-Present txn kept =
        let (ins', updated, same, present) = Kept-inputs txn.inputs kept in
        (record txn { inputs = ins' }, rw updated refl, refl, same, present)
