-- ===== src/Merkle/Elements/Reverted.antt =====
-- ElementAccumulator.RevertBlock and ElementRevertUpdate.UpdateElementProof.
use sunyata.Common.{
  ℕ, suc, ◌-◌, ◌^◌, ◌≤◌, ◌<◌, ◌≡◌, ◌≢◌, ◌⊎◌, refl, sym, ap, ◌∙◌, inl, inr, arith, true, false, some,
  List, [], ◌∷◌, ◌++◌, append_assoc, append-nil, length, All, All-map, All-both, subst, fun_ext,
  leb, lt→ltb, Bool-cases, ◌==◌, ==_iff,
}
use sunyata.Types.{Crypto, Hash256, StateElement, ephemeral_leaf_index}
use sunyata.Merkle.Bits.Merging.{merge_height-lem}
use sunyata.Merkle.Hash.{ElementLeaf, leaf_hash}
use sunyata.Merkle.Forest.{path, length-path}
use sunyata.Merkle.Accumulator.{Accumulator, update, update-here, update-other, contains_leaf}
use sunyata.Merkle.Accumulator.Layout.{Belongs}
use sunyata.Merkle.Accumulator.Tracking.{Represents, IsProof}
use sunyata.Merkle.Accumulator.Leaves.{IsProof-contains}
use sunyata.Merkle.Update.Recompute.{Touches}
use sunyata.Merkle.Update.Groups.{of_height}
use sunyata.Merkle.Update.Groups.Runs.{of_height-here, of_height-skip}
use sunyata.Merkle.Update.Places.{
  Belongs-height, Belongs-high, Belongs-end, Belongs-met, Belongs-grows,
}
use sunyata.Merkle.Update.Overwrite.{Proven, of_height-Placed, of_height-touched}
use sunyata.Merkle.Elements.{
  ElementRevertUpdate, collect, revert_block, truncate, revert_element_proof,
}
use sunyata.Merkle.Elements.Proofs.{take-path}
use sunyata.Merkle.Elements.Updated.{update_proof_lem}

-- The loop of RevertBlock appends to every tree the leaves of its height.
collect_lem :
    (ls : List ElementLeaf) (trees : ℕ → List ElementLeaf)
    → All (λ (l : ElementLeaf). length l.merkle_proof < 64) ls
    → collect ls trees ≡ some (λ h. trees h ++ of_height h ls)
unfolding collect
collect_lem [] trees b = ap some (fun_ext (λ h. sym (append-nil (trees h))))
collect_lem (l ∷ ls) trees b =
    let n = length l.merkle_proof in
    rw (lt→ltb n 64 b.0)
      (collect_lem ls (update trees n (trees n ++ l ∷ [])) b.1 ∙ ap some (fun_ext same))
  where
    same :
        (h : ℕ)
        → update trees (length l.merkle_proof) (trees (length l.merkle_proof) ++ l ∷ []) h
            ++ of_height h ls
          ≡ trees h ++ of_height h (l ∷ ls)
    same h = elim (Bool-cases (h == length l.merkle_proof)) [
      | inl e ↦
          let at : h ≡ length l.merkle_proof = (==_iff h (length l.merkle_proof)).0 e in
          subst
            (λ x.
              update trees (length l.merkle_proof) (trees (length l.merkle_proof) ++ l ∷ []) x
                ++ of_height x ls
              ≡ trees x ++ of_height x (l ∷ ls))
            (sym at)
            (ap (λ xs. xs ++ of_height (length l.merkle_proof) ls)
                (update-here trees (length l.merkle_proof)
                  (trees (length l.merkle_proof) ++ l ∷ []))
              ∙ append_assoc (trees (length l.merkle_proof)) (l ∷ []) _
              ∙ ap (λ xs. trees (length l.merkle_proof) ++ xs)
                  (sym (of_height-here (length l.merkle_proof) l ls refl)))
      | inr e ↦
          let ne : h ≢ length l.merkle_proof = ground arith in
          ap (λ xs. xs ++ of_height h ls) (update-other trees (length l.merkle_proof) h _ ne)
          ∙ ap (λ xs. trees h ++ xs) (sym (of_height-skip h l ls (λ q. ne (sym q))))
    ]

-- Both cases of the truncation give the path in the tree before the block.
truncate_lem :
    (crypto : Crypto) (leaf' : ℕ → Hash256) (n n' : ℕ) (e : StateElement)
    → n ≤ 2 ^ 63
    → n ≤ n'
    → e.leaf_index < n
    → IsProof crypto leaf' n' e.leaf_index e.merkle_proof
    → (t : ℕ) × Belongs n t e.leaf_index
      × (truncate n e ≡ record e { merkle_proof = path crypto leaf' t e.leaf_index })
unfolding truncate
truncate_lem crypto leaf' n n' e small le lt (t', b', p) =
    let i = e.leaf_index in
    let (m, height, meet, apart) =
      merge_height-lem n i (omega (arith, small)) (omega (arith, small, lt))
        (λ q. absurd (omega (arith, q, lt))) in
    let b = Belongs-met n i m lt meet apart in
    let grows = Belongs-grows n n' m t' i le b b' in
    let len : length e.merkle_proof ≡ t' = ap length p ∙ length-path crypto leaf' t' i in
    let back : suc m - 1 ≡ m = omega arith in
    (
      m,
      b,
      elim (Bool-cases (leb (suc m) t')) [
        | inl le' ↦
            rw (height, len, le', back, p)
              (ap (λ q. record e { merkle_proof = q }) (take-path crypto leaf' m t' i grows))
        | inr gt' ↦
            let same : t' ≡ m = ground (arith, grows) in
            rw (height, len, gt')
              (ap (λ q. record e { merkle_proof = q }) (p ∙ ap (λ t. path crypto leaf' t i) same))
      ],
    )

module _ (crypto : Crypto) (leaf leaf' : ℕ → Hash256) (acc : Accumulator)
    (updated : List ElementLeaf) (rep : Represents crypto leaf acc)
    (small : acc.num_leaves ≤ 2 ^ 63)
    (proofs : All (λ l. IsProof crypto leaf acc.num_leaves l.leaf_index l.merkle_proof) updated)
    (hashed : All (λ l. leaf_hash crypto l ≡ leaf l.leaf_index) updated)
    (others : (m : ℕ) → m < acc.num_leaves → (leaf m ≡ leaf' m) ⊎ Touches m updated) where
  reverted_trees :
      revert_block acc updated
      ≡ some (record { updated = λ h. of_height h updated; num_leaves = acc.num_leaves })
  unfolding revert_block
  reverted_trees =
      rw
        (collect_lem updated (λ h. [])
          (All-map _ _
            (λ l (t, b, p). omega (
              arith,
              Belongs-height acc.num_leaves t l.leaf_index (omega (arith, small)) b,
              ap length p ∙ length-path crypto leaf t l.leaf_index,
            ))
            updated proofs))
        refl

  All-Proven : All (Proven crypto leaf leaf acc.num_leaves) updated
  All-Proven = All-both _ _ _ (λ l p e. (p, e)) updated proofs hashed

  -- RevertBlock never panics on updated leaves with their proofs and hashes from before the block,
  -- and the update that it returns takes the proof after the block of any element from before it
  -- back to its proof before the block, with which the old accumulator contains the element. The
  -- old accumulator has at most 2^63 leaves, and no fewer after the block.
  pub revert_element_proof-contains :
      (n' : ℕ) (l : ElementLeaf)
      → acc.num_leaves ≤ n'
      → l.leaf_index < acc.num_leaves
      → leaf_hash crypto l ≡ leaf l.leaf_index
      → IsProof crypto leaf' n' l.leaf_index l.merkle_proof
      → (eru : ElementRevertUpdate) × (e : StateElement) × (revert_block acc updated ≡ some eru)
        × (revert_element_proof crypto eru l.state_element ≡ some e)
        × IsProof crypto leaf acc.num_leaves l.leaf_index e.merkle_proof
        × (contains_leaf crypto acc (record l { state_element = e }) ≡ true)
  unfolding revert_element_proof leaf_hash
  revert_element_proof-contains n' l le lt hash p =
      let (t, b, cut) = truncate_lem crypto leaf' acc.num_leaves n' l.state_element small le lt p in
      let short : StateElement = record l.state_element {
        merkle_proof = path crypto leaf' t l.leaf_index;
      } in
      let new =
        update_proof_lem crypto leaf' leaf acc.num_leaves t short (λ h. of_height h updated) small b
          refl (of_height-Placed crypto leaf leaf acc.num_leaves t updated All-Proven)
          (λ m at. elim (others m (omega (arith, Belongs-high _ t m at, Belongs-end _ t m at))) [
            | inl e ↦ inl e
            | inr touches ↦ inr (
                of_height-touched crypto leaf leaf acc.num_leaves t m updated All-Proven at touches)
          ]) in
      let not_ephemeral : (l.leaf_index == ephemeral_leaf_index) ≡ false =
        ground (arith, small, lt) in
      let present : leb acc.num_leaves l.leaf_index ≡ false = ground (arith, lt) in
      let e : StateElement = record l.state_element {
        merkle_proof = path crypto leaf t l.leaf_index;
      } in
      (
        record { updated = λ h. of_height h updated; num_leaves = acc.num_leaves },
        e,
        reverted_trees,
        rw (not_ephemeral, present, cut, new) refl,
        (t, b, refl),
        IsProof-contains crypto leaf acc (record l { state_element = e }) rep hash (t, b, refl),
      )
