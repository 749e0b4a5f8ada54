-- ===== src/Merkle/Elements/Proofs.antt =====
-- updateProof turns the proof of any leaf into its proof over the updated leaves.
use sunyata.Common.{
  ℕ, zero, suc, ◌+◌, ◌*◌, ◌/◌, ◌^◌, ◌≤◌, ◌<◌, ◌≡◌, ◌≢◌, ◌⊎◌, refl, sym, ap, ◌∙◌, inl, inr, arith,
  true, false, some, List, [], ◌∷◌, length, get_elem?, get_elem?-injective, get_elem?-set_elem,
  get_elem?-set_elem_other, length-set_elem, set_elem, copy_from, length-copy_from,
  get_elem?-copy_from_low, get_elem?-copy_from, take, take-append_left, take-all, All, All-map,
  subst, Bool-cases, ltb, ltb→lt, ltb-false→le, ◌==◌, ==_iff,
}
use sunyata.Types.{Crypto, Hash256}
use sunyata.Merkle.Bits.{sibling, merge_height, div-same_above, div-two-pow-suc}
use sunyata.Merkle.Bits.Merging.{merge_height-le}
use sunyata.Merkle.Hash.{ElementLeaf, leaf_hash, proof_root}
use sunyata.Merkle.Forest.{node, path, length-path, proof_root-path}
use sunyata.Merkle.Accumulator.Layout.{Belongs}
use sunyata.Merkle.Update.Recompute.{Touches, Touches-All, node-agree}
use sunyata.Merkle.Update.Tree.{range-div}
use sunyata.Merkle.Update.Places.{get_elem?-path, Belongs-high, Belongs-end}
use sunyata.Merkle.Update.Overwrite.{Replaced}
use sunyata.Merkle.Elements.{closest}

pub closest-All :
    (P : ElementLeaf → Type 0) (i : ℕ) (best : ElementLeaf) (uls : List ElementLeaf)
    → P best
    → All P uls
    → P (closest i best uls)
unfolding closest
closest-All P i best [] p ps = p
closest-All P i best (ul ∷ uls) p ps =
    elim (Bool-cases (ltb (merge_height i ul.leaf_index) (merge_height i best.leaf_index))) [
      | inl e ↦ rw e (closest-All P i ul uls ps.0 ps.1)
      | inr e ↦ rw e (closest-All P i best uls p ps.1)
    ]

-- No updated leaf is closer than the closest.
abbrev pub Closer : ℕ → ElementLeaf → ElementLeaf → Type 0
Closer i a b = merge_height i a.leaf_index ≤ merge_height i b.leaf_index

closest-yes :
    (i : ℕ) (best ul : ElementLeaf) (uls : List ElementLeaf)
    → ltb (merge_height i ul.leaf_index) (merge_height i best.leaf_index) ≡ true
    → closest i best (ul ∷ uls) ≡ closest i ul uls
unfolding closest
closest-yes i best ul uls e = rw e refl

closest-no :
    (i : ℕ) (best ul : ElementLeaf) (uls : List ElementLeaf)
    → ltb (merge_height i ul.leaf_index) (merge_height i best.leaf_index) ≡ false
    → closest i best (ul ∷ uls) ≡ closest i best uls
unfolding closest
closest-no i best ul uls e = rw e refl

pub closest-Closer :
    (i : ℕ) (best : ElementLeaf) (uls : List ElementLeaf)
    → All (Closer i (closest i best uls)) (best ∷ uls)
unfolding closest
closest-Closer i best [] = (omega arith, tt)
closest-Closer i best (ul ∷ uls) =
    elim (Bool-cases (ltb (merge_height i ul.leaf_index) (merge_height i best.leaf_index))) [
      | inl e ↦
          let (here, rest) = closest-Closer i ul uls in
          let lt = ltb→lt (merge_height i ul.leaf_index) (merge_height i best.leaf_index) e in
          subst (λ c. All (Closer i c) (best ∷ ul ∷ uls)) (sym (closest-yes i best ul uls e))
            (omega (arith, here, lt), (here, rest))
      | inr e ↦
          let (here, rest) = closest-Closer i best uls in
          let ge = ltb-false→le (merge_height i ul.leaf_index) (merge_height i best.leaf_index) e in
          subst (λ c. All (Closer i c) (best ∷ ul ∷ uls)) (sym (closest-no i best ul uls e))
            (here, (omega (arith, here, ge), rest))
    ]

-- The other child has the same parent.
sibling-parent : (k : ℕ) → sibling k / 2 ≡ k / 2
sibling-parent k = ground arith

sibling-only : (a b : ℕ) → a / 2 ≡ b / 2 → a ≢ b → sibling a ≡ b
sibling-only a b same ne = ground arith

module _ (crypto : Crypto) (leaf' : ℕ → Hash256) where
  pub take-path : (m h i : ℕ) → m ≤ h → take m (path crypto leaf' h i) ≡ path crypto leaf' m i
  unfolding path
  take-path zero zero i le = refl
  take-path (suc m) zero i le = absurd (omega (arith, le))
  take-path m (suc h) i le = elim (Bool-cases (ltb m (suc h))) [
    | inl lt ↦
        let lo = ltb→lt m (suc h) lt in
        take-append_left m (path crypto leaf' h i) _
          (omega (arith, lo, length-path crypto leaf' h i))
        ∙ take-path m h i (omega (arith, lo))
    | inr ge ↦
        let e : m ≡ suc h = omega (arith, le, ltb-false→le m (suc h) ge) in
        rw e (take-all (suc h) _ (omega (arith, length-path crypto leaf' (suc h) i)))
  ]

module _ (crypto : Crypto) (leaf leaf' : ℕ → Hash256) (n h i : ℕ) (ls : List ElementLeaf)
    (small : n ≤ 2 ^ 63) (b : Belongs n h i)
    (touched : (m : ℕ) → Belongs n h m → (leaf' m ≡ leaf m) ⊎ Touches m ls) where
  pub index_small : (m : ℕ) → Belongs n h m → m < 2 ^ 64
  index_small m at = omega (arith, small, Belongs-high n h m at, Belongs-end n h m at)

  -- An entry over leaves that are not updated.
  untouched_entry :
      (j : ℕ)
      → j < h
      → All (λ (l : ElementLeaf). suc j < merge_height i l.leaf_index) ls
      → node crypto leaf' j (sibling (i / 2 ^ j)) ≡ node crypto leaf j (sibling (i / 2 ^ j))
  untouched_entry j lt far = node-agree crypto leaf leaf' j (sibling (i / 2 ^ j)) same
    where
      same :
          (m : ℕ)
          → sibling (i / 2 ^ j) * 2 ^ j ≤ m
          → m < sibling (i / 2 ^ j) * 2 ^ j + 2 ^ j
          → leaf' m ≡ leaf m
      same m lo hi =
          let at : m / 2 ^ j ≡ sibling (i / 2 ^ j) = range-div m j _ lo hi in
          let up : m / 2 ^ suc j ≡ i / 2 ^ suc j =
            div-two-pow-suc m j
            ∙ ap (λ x. x / 2) at
            ∙ sibling-parent (i / 2 ^ j)
            ∙ sym (div-two-pow-suc i j) in
          let tree = div-same_above m i (suc j) h lt up in
          let here : Belongs n h m = record { present = b.present; inside = rw tree b.inside } in
          elim (touched m here) [
            | inl e ↦ e
            | inr t ↦
                let away = Touches-All (λ x. suc j < merge_height i x) m ls t far in
                let near =
                  merge_height-le i m (suc j) (index_small i b) (index_small m here) (sym up) in
                absurd (omega (arith, away, near))
          ]

  -- No leaf of the tree is updated: the proof stays.
  pub none_updated : ls ≡ [] → path crypto leaf h i ≡ path crypto leaf' h i
  none_updated e =
      get_elem?-injective (path crypto leaf h i) (path crypto leaf' h i)
        (length-path crypto leaf h i ∙ sym (length-path crypto leaf' h i))
        (λ j lt.
          let below : j < h = omega (arith, lt, length-path crypto leaf h i) in
          get_elem?-path crypto leaf h i j below
          ∙ ap some (sym (untouched_entry j below (rw e tt)))
          ∙ sym (get_elem?-path crypto leaf' h i j below))

  -- The proof of the closest leaf is copied above the place where the paths meet, and the root
  -- below that place is computed.
  abbrev pub merged : ℕ → ElementLeaf → List Hash256
  merged m best =
      set_elem (copy_from (suc m) (path crypto leaf h i) best.merkle_proof) m
        (proof_root crypto (leaf_hash crypto best) best.leaf_index (take m best.merkle_proof))

  module _ (best : ElementLeaf) (m : ℕ) (at : Replaced crypto leaf leaf' n h best)
      (within : suc m ≤ h) (meet : i / 2 ^ suc m ≡ best.leaf_index / 2 ^ suc m)
      (apart : i / 2 ^ m ≢ best.leaf_index / 2 ^ m)
      (far : All (λ (l : ElementLeaf). suc m ≤ merge_height i l.leaf_index) ls) where
    best_length : length best.merkle_proof ≡ h
    best_length = ap length at.1 ∙ length-path crypto leaf' h best.leaf_index

    merged-length : length (merged m best) ≡ h
    merged-length =
        length-set_elem (copy_from (suc m) (path crypto leaf h i) best.merkle_proof) m _
        ∙ length-copy_from (suc m) (path crypto leaf h i) best.merkle_proof
        ∙ length-path crypto leaf h i

    computed_root :
        proof_root crypto (leaf_hash crypto best) best.leaf_index (take m best.merkle_proof)
        ≡ node crypto leaf' m (best.leaf_index / 2 ^ m)
    computed_root =
        rw (at.2, at.1, take-path crypto leaf' m h best.leaf_index (omega (arith, within)))
          (proof_root-path crypto leaf' m best.leaf_index)

    entry_met : get_elem? (merged m best) m ≡ some (node crypto leaf' m (sibling (i / 2 ^ m)))
    entry_met =
        let below =
          length-copy_from (suc m) (path crypto leaf h i) best.merkle_proof
          ∙ length-path crypto leaf h i in
        let parents : i / 2 ^ m / 2 ≡ best.leaf_index / 2 ^ m / 2 =
          sym (div-two-pow-suc i m) ∙ meet ∙ div-two-pow-suc best.leaf_index m in
        get_elem?-set_elem (copy_from (suc m) (path crypto leaf h i) best.merkle_proof) m _
          (omega (arith, below, within))
        ∙ ap some (
            computed_root
            ∙ ap (node crypto leaf' m)
                (sym (sibling-only (i / 2 ^ m) (best.leaf_index / 2 ^ m) parents apart)))

    merged-entry :
        (j : ℕ)
        → j < h
        → get_elem? (merged m best) j ≡ some (node crypto leaf' j (sibling (i / 2 ^ j)))
    merged-entry j lt = elim (Bool-cases (ltb j m)) [
      | inl lo ↦
          let below = ltb→lt j m lo in
          get_elem?-set_elem_other _ m j _ (λ e. absurd (omega (arith, e, below)))
          ∙ get_elem?-copy_from_low (suc m) (path crypto leaf h i) best.merkle_proof j
              (omega (arith, below))
          ∙ get_elem?-path crypto leaf h i j lt
          ∙ ap some
              (sym (untouched_entry j lt (All-map _ _ (λ l le. omega (arith, le, below)) ls far)))
      | inr hi ↦ elim (Bool-cases (j == m)) [
        | inl e ↦
            let here : j ≡ m = (==_iff j m).0 e in
            subst
              (λ x. get_elem? (merged m best) x ≡ some (node crypto leaf' x (sibling (i / 2 ^ x))))
              (sym here) entry_met
        | inr ne ↦
            let other : j ≢ m = ground arith in
            let above : suc m ≤ j = omega (arith, other, ltb-false→le j m hi) in
            get_elem?-set_elem_other _ m j _ other
            ∙ get_elem?-copy_from (suc m) (path crypto leaf h i) best.merkle_proof j
                (length-path crypto leaf h i ∙ sym best_length) above
            ∙ ap (λ p. get_elem? p j) at.1
            ∙ get_elem?-path crypto leaf' h best.leaf_index j lt
            ∙ ap (λ k. some (node crypto leaf' j (sibling k)))
                (sym (div-same_above i best.leaf_index (suc m) j above meet))
      ]
    ]

    pub merged-path : merged m best ≡ path crypto leaf' h i
    merged-path =
        get_elem?-injective (merged m best) (path crypto leaf' h i)
          (merged-length ∙ sym (length-path crypto leaf' h i))
          (λ j lt.
            let below : j < h = omega (arith, lt, merged-length) in
            merged-entry j below ∙ sym (get_elem?-path crypto leaf' h i j below))
