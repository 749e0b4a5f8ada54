-- ===== src/Merkle/Elements/Updated.antt =====
-- updateProof on the proof of any leaf of a tree.
use sunyata.Common.{
  ℕ, suc, ◌-◌, ◌^◌, ◌≤◌, ◌≡◌, ◌≢◌, ◌⊎◌, refl, sym, ap, ◌∙◌, inl, inr, arith, true, false, Option,
  some, List, [], ◌∷◌, length, copy_from, length-copy_from, get_elem?-copy_from,
  get_elem?-injective, All, All-map, subst, Bool-cases, ltb, lt→ltb, ◌==◌, ==_iff,
}
use sunyata.Types.{Crypto, Hash256, StateElement}
use sunyata.Merkle.Bits.Merging.{merge_height-lem, merge_height-le}
use sunyata.Merkle.Hash.{ElementLeaf}
use sunyata.Merkle.Forest.{path, length-path}
use sunyata.Merkle.Accumulator.Layout.{Belongs}
use sunyata.Merkle.Update.Recompute.{Touches}
use sunyata.Merkle.Update.Places.{Belongs-height}
use sunyata.Merkle.Update.Overwrite.{Replaced}
use sunyata.Merkle.Elements.{closest, update_proof}
use sunyata.Merkle.Elements.Proofs.{
  closest-All, closest-Closer, Closer, none_updated, merged-path, index_small,
}

copy-all : {A : Type 0} (xs ys : List A) → length xs ≡ length ys → copy_from 0 xs ys ≡ ys
copy-all xs ys len =
    get_elem?-injective (copy_from 0 xs ys) ys (length-copy_from 0 xs ys ∙ len)
      (λ i lt. get_elem?-copy_from 0 xs ys i len (omega arith))

module _ (crypto : Crypto) (leaf leaf' : ℕ → Hash256) (n h : ℕ) (e : StateElement)
    (updated : ℕ → List ElementLeaf) (small : n ≤ 2 ^ 63) (b : Belongs n h e.leaf_index)
    (proof : e.merkle_proof ≡ path crypto leaf h e.leaf_index)
    (placed : All (Replaced crypto leaf leaf' n h) (updated h))
    (touched : (m : ℕ) → Belongs n h m → (leaf' m ≡ leaf m) ⊎ Touches m (updated h)) where
  abbrev pub renewed : StateElement
  renewed = record e { merkle_proof = path crypto leaf' h e.leaf_index }

  proof_length : length e.merkle_proof ≡ h
  proof_length = ap length proof ∙ length-path crypto leaf h e.leaf_index

  in_range : ltb h 64 ≡ true
  in_range = lt→ltb h 64 (Belongs-height n h e.leaf_index (omega (arith, small)) b)

  with_entries : List Hash256 → Option StateElement
  with_entries p = some (record e { merkle_proof = p })

  -- updateProof where the closest leaf is another one.
  update_proof_apart :
      (ul : ElementLeaf) (uls : List ElementLeaf)
      → updated h ≡ ul ∷ uls
      → (best : ElementLeaf) → closest e.leaf_index ul uls ≡ best
      → Replaced crypto leaf leaf' n h best
      → All (Closer e.leaf_index best) (updated h)
      → best.leaf_index ≢ e.leaf_index
      → update_proof crypto e updated ≡ some renewed
  unfolding update_proof with_entries
  update_proof_apart ul uls q best c at far ne =
      let i = e.leaf_index in
      let i_small = index_small crypto leaf leaf' n h i (updated h) small b touched i b in
      let best_small =
        index_small crypto leaf leaf' n h i (updated h) small b touched best.leaf_index at.0 in
      let (m, height, meet, apart) =
        merge_height-lem i best.leaf_index i_small best_small (λ q'. ne (sym q')) in
      let le =
        merge_height-le i best.leaf_index h i_small best_small
          (omega (arith, b.inside, at.0.inside)) in
      let best_length : length best.merkle_proof ≡ h =
        ap length at.1 ∙ length-path crypto leaf' h best.leaf_index in
      let long : ltb h (suc m) ≡ false = ground (arith, le, height) in
      let back : suc m - 1 ≡ m = omega arith in
      let other : (best.leaf_index == i) ≡ false = ground arith in
      rw (proof_length, in_range, q, c, other, height, proof_length, best_length, long, back, proof)
        (ap with_entries (
          merged-path crypto leaf leaf' n h i (updated h) small b touched best m at
            (omega (arith, le, height)) meet apart
            (All-map _ _ (λ l closer. omega (arith, height, closer)) (updated h) far)))

  -- updateProof where the leaf itself is updated.
  update_proof_same :
      (ul : ElementLeaf) (uls : List ElementLeaf)
      → updated h ≡ ul ∷ uls
      → (best : ElementLeaf) → closest e.leaf_index ul uls ≡ best
      → Replaced crypto leaf leaf' n h best
      → best.leaf_index ≡ e.leaf_index
      → update_proof crypto e updated ≡ some renewed
  unfolding update_proof with_entries
  update_proof_same ul uls q best c at same =
      let best_length : length best.merkle_proof ≡ h =
        ap length at.1 ∙ length-path crypto leaf' h best.leaf_index in
      rw (proof_length, in_range, q, c, (==_iff best.leaf_index e.leaf_index).1 same)
        (ap with_entries (
          copy-all e.merkle_proof best.merkle_proof (proof_length ∙ sym best_length)
          ∙ at.1
          ∙ ap (path crypto leaf' h) same))

  pub update_proof_lem : update_proof crypto e updated ≡ some renewed
  unfolding update_proof with_entries
  update_proof_lem = go (updated h) refl
    where
      go : (ls : List ElementLeaf) → updated h ≡ ls → update_proof crypto e updated ≡ some renewed
      go [] q =
          rw (proof_length, in_range, q)
            (ap with_entries (
              proof
              ∙ none_updated crypto leaf leaf' n h e.leaf_index (updated h) small b touched q))
      go (ul ∷ uls) q =
          let best = closest e.leaf_index ul uls in
          let all = subst (All (Replaced crypto leaf leaf' n h)) q placed in
          let at = closest-All (Replaced crypto leaf leaf' n h) e.leaf_index ul uls all.0 all.1 in
          elim (Bool-cases (best.leaf_index == e.leaf_index)) [
            | inl same ↦
                update_proof_same ul uls q best refl at
                  ((==_iff best.leaf_index e.leaf_index).0 same)
            | inr ne ↦
                update_proof_apart ul uls q best refl at
                  (subst (All (Closer e.leaf_index best)) (sym q)
                    (closest-Closer e.leaf_index ul uls))
                  (ground arith)
          ]
