-- ===== src/Merkle/Update/Overwrite.antt =====
-- updateLeaves overwrites leaves of the accumulator: the roots and the proofs of the leaves are those
-- over the sequence with the new hashes.
use sunyata.Common.{
  ℕ, ◌-◌, ◌/◌, ◌%◌, ◌^◌, ◌≤◌, ◌<◌, ◌≡◌, ◌≢◌, ◌⊎◌, refl, sym, ap, ◌∙◌, inl, inr, arith, some, List,
  [], ◌∷◌, length, get_elem?-injective, All, All-map, fun_ext, All-both, All-Pairs, subst,
}
use sunyata.Types.{Crypto, Hash256}
use sunyata.Merkle.Hash.{ElementLeaf, leaf_hash}
use sunyata.Merkle.Forest.{node, path, length-path}
use sunyata.Merkle.Accumulator.{Accumulator}
use sunyata.Merkle.Accumulator.Layout.{Belongs}
use sunyata.Merkle.Accumulator.Tracking.{Represents, IsProof}
use sunyata.Merkle.Update.{sort_leaves, update_trees, update_leaves}
use sunyata.Merkle.Update.Recompute.{
  Sorted, Touches, Touches-Pairs, Low, Entry, node-agree, Reproved-index, Reproved-length,
}
use sunyata.Merkle.Update.Groups.{
  of_height, Distinct, sort_leaves-All, sort_leaves-Ordered, sort_leaves-Touches, of_height-All,
  of_height-Sorted, of_height-Touches,
}
use sunyata.Merkle.Update.Groups.Runs.{List-cases, group_trees-sort_leaves}
use sunyata.Merkle.Update.Trees.{Treatable, Treated, Progress, update_trees-Progress}
use sunyata.Merkle.Update.Places.{
  Belongs-low, Belongs-high, Belongs-end, Belongs-start, Belongs-height, Belongs-range,
  Belongs-first, Belongs-unique, get_elem?-path, IsProof-length,
}

module _ (crypto : Crypto) (leaf leaf' : ℕ → Hash256) (n : ℕ) where
  -- The leaf lies in the tree of height `h`, with its proof over `leaf`.
  abbrev pub Placed : ℕ → ElementLeaf → Type 0
  Placed h l =
      Belongs n h l.leaf_index
      × (l.merkle_proof ≡ path crypto leaf h l.leaf_index)
      × (leaf_hash crypto l ≡ leaf' l.leaf_index)

  Placed-Entry : (h : ℕ) (l : ElementLeaf) → Placed h l → (j : ℕ) → j < h → Entry crypto leaf l j
  Placed-Entry h l (b, e, hash) j lt = rw e (get_elem?-path crypto leaf h l.leaf_index j lt)

  Placed-length : (h : ℕ) (l : ElementLeaf) → Placed h l → length l.merkle_proof ≡ h
  Placed-length h l (b, e, hash) = ap length e ∙ length-path crypto leaf h l.leaf_index

  -- The leaves of one tree are what recompute works on.
  Placed-Treatable :
      (h i : ℕ) (ls : List ElementLeaf)
      → n ≤ 2 ^ 63
      → Belongs n h i
      → Sorted ls
      → All (Placed h) ls
      → ((m : ℕ) → Belongs n h m → (leaf' m ≡ leaf m) ⊎ Touches m ls)
      → Treatable crypto leaf leaf' n h ls
  Placed-Treatable h i ls small b sorted placed others = record {
    start = Belongs-start n h i b;
    small = omega (arith, small, Belongs-end n h i b);
    ready = record {
      sorted = sorted;
      inside =
          All-map (Placed h) _
            (λ l p. (Belongs-low n h l.leaf_index p.0, Belongs-high n h l.leaf_index p.0)) ls
            placed;
      long = All-map (Placed h) _ (λ l p. omega (arith, Placed-length h l p)) ls placed;
      old = All-map (Placed h) _ (λ l p. Placed-Entry h l p) ls placed;
      hashed = All-map (Placed h) _ (λ l p. sym p.2) ls placed;
    };
    agree = λ m lo hi. others m (Belongs-range n h i m b lo hi);
  }

  -- The leaf after the update: its proof over `leaf'`.
  abbrev pub Replaced : ℕ → ElementLeaf → Type 0
  Replaced h l =
      Belongs n h l.leaf_index
      × (l.merkle_proof ≡ path crypto leaf' h l.leaf_index)
      × (leaf_hash crypto l ≡ leaf' l.leaf_index)

  Low-Replaced : (h : ℕ) (l l' : ElementLeaf) → Placed h l → Low crypto leaf' h l l' → Replaced h l'
  unfolding leaf_hash
  Low-Replaced h l l' p low =
      let index = Reproved-index l l' low.same_leaf in
      let len = Reproved-length l l' low.same_leaf ∙ Placed-length h l p in
      (
        rw index p.0,
        get_elem?-injective l'.merkle_proof (path crypto leaf' h l'.leaf_index)
            (len ∙ sym (length-path crypto leaf' h l'.leaf_index))
            (λ j lt.
              low.below j (omega (arith, lt, len))
              ∙ sym (get_elem?-path crypto leaf' h l'.leaf_index j (omega (arith, lt, len)))),
        rw (low.same_leaf.1) p.2,
      )

  -- A leaf with its proof over `leaf`, and its new hash.
  abbrev pub Proven : ElementLeaf → Type 0
  Proven l =
      IsProof crypto leaf n l.leaf_index l.merkle_proof × (leaf_hash crypto l ≡ leaf' l.leaf_index)

  pub of_height-Placed :
      (h : ℕ) (ls : List ElementLeaf) → All Proven ls → All (Placed h) (of_height h ls)
  of_height-Placed h ls proven =
      All-map (λ l. Proven l × (length l.merkle_proof ≡ h)) _
        (λ l ((p, e), len).
          let (b, q) = IsProof-length crypto leaf n l.leaf_index l.merkle_proof h p len in
          (b, q, e))
        (of_height h ls) (of_height-All Proven h ls proven)

  -- A leaf of a tree is among the leaves of its height.
  pub of_height-touched :
      (h m : ℕ) (ls : List ElementLeaf)
      → All Proven ls
      → Belongs n h m
      → Touches m ls
      → Touches m (of_height h ls)
  of_height-touched h m ls proven b t =
      of_height-Touches m h ls
        (All-map Proven _ (λ l ((s, b', e), hash) at. length-at l s b' e at) ls proven) t
    where
      length-at :
          (l : ElementLeaf) (s : ℕ)
          → Belongs n s l.leaf_index
          → l.merkle_proof ≡ path crypto leaf s l.leaf_index
          → l.leaf_index ≡ m
          → length l.merkle_proof ≡ h
      length-at l s b' e at =
          ap length e
          ∙ length-path crypto leaf s l.leaf_index
          ∙ Belongs-unique n s h m (subst (Belongs n s) at b') b

-- What updateLeaves leaves behind.
pub record Overwritten (crypto : Crypto) (leaf leaf' : ℕ → Hash256) (n : ℕ) (acc' : Accumulator)
    (trees' : ℕ → List ElementLeaf) : Type 0 where
  pub counted : acc'.num_leaves ≡ n
  pub rep : Represents crypto leaf' acc'
  pub replaced : (h : ℕ) → h < 64 → All (Replaced crypto leaf leaf' n h) (trees' h)
  pub touched : (h m : ℕ) → h < 64 → Belongs n h m → (leaf' m ≡ leaf m) ⊎ Touches m (trees' h)

module _ (crypto : Crypto) (leaf leaf' : ℕ → Hash256) (acc : Accumulator)
    (leaves : List ElementLeaf) (rep : Represents crypto leaf acc) (small : acc.num_leaves ≤ 2 ^ 63)
    (distinct : Distinct leaves)
    (proofs : All (λ l. IsProof crypto leaf acc.num_leaves l.leaf_index l.merkle_proof) leaves)
    (hashed : All (λ l. leaf_hash crypto l ≡ leaf' l.leaf_index) leaves)
    (others : (m : ℕ) → m < acc.num_leaves → (leaf' m ≡ leaf m) ⊎ Touches m leaves) where
  abbrev grouped : ℕ → List ElementLeaf
  grouped h = of_height h (sort_leaves leaves)

  All-Proven : All (Proven crypto leaf leaf' acc.num_leaves) (sort_leaves leaves)
  All-Proven = sort_leaves-All _ leaves (All-both _ _ _ (λ l p e. (p, e)) leaves proofs hashed)

  grouped-Placed : (h : ℕ) → All (Placed crypto leaf leaf' acc.num_leaves h) (grouped h)
  grouped-Placed h =
      of_height-Placed crypto leaf leaf' acc.num_leaves h (sort_leaves leaves) All-Proven

  grouped-others :
      (h m : ℕ) → Belongs acc.num_leaves h m → (leaf' m ≡ leaf m) ⊎ Touches m (grouped h)
  grouped-others h m b =
      elim (others m (omega (arith, Belongs-high _ h m b, Belongs-end _ h m b))) [
        | inl e ↦ inl e
        | inr t ↦ inr (
            of_height-touched crypto leaf leaf' acc.num_leaves h m (sort_leaves leaves) All-Proven b
              (sort_leaves-Touches m leaves t))
      ]

  grouped-Treatable :
      (h : ℕ) → (grouped h ≢ []) → Treatable crypto leaf leaf' acc.num_leaves h (grouped h)
  grouped-Treatable h ne = go (grouped h) refl (grouped-Placed h)
    where
      go :
          (ls : List ElementLeaf)
          → grouped h ≡ ls
          → All (Placed crypto leaf leaf' acc.num_leaves h) ls
          → Treatable crypto leaf leaf' acc.num_leaves h (grouped h)
      go [] e p = absurd (ne e)
      go (l ∷ ls) e p =
          Placed-Treatable crypto leaf leaf' acc.num_leaves h l.leaf_index (grouped h) small p.0.0
            (of_height-Sorted h (sort_leaves leaves) (sort_leaves-Ordered leaves distinct))
            (grouped-Placed h) (grouped-others h)

  -- The new root of every tree, with or without leaves to update.
  new_root :
      (h : ℕ) (root' : Hash256) (ls' : List ElementLeaf)
      → acc.num_leaves / 2 ^ h % 2 ≡ 1
      → Treated crypto leaf leaf' acc.num_leaves h (acc.trees h) root' (grouped h) ls'
      → root' ≡ node crypto leaf' h (acc.num_leaves / 2 ^ h - 1)
  new_root h root' ls' odd t = elim (List-cases (grouped h)) [
    | inr ne ↦ t.changed ne
    | inl e ↦
        t.stays e
        ∙ rep.roots h odd
        ∙ sym (
            node-agree crypto leaf leaf' h (acc.num_leaves / 2 ^ h - 1) (λ m lo hi.
              elim (grouped-others h m
                (Belongs-range _ h _ m (Belongs-first acc.num_leaves h odd) lo hi)) [
                  | inl same ↦ same
                  | inr touches ↦ absurd (subst (Touches m) e touches)
                ]))
  ]

  Progress-Overwritten :
      (acc' : Accumulator) (trees' : ℕ → List ElementLeaf)
      → Progress crypto leaf leaf' 64 acc acc' grouped trees'
      → Overwritten crypto leaf leaf' acc.num_leaves acc' trees'
  Progress-Overwritten acc' trees' p = record {
    counted = p.counted;
    rep = record {
      roots = rw (p.counted) (λ h odd.
          let b = Belongs-first acc.num_leaves h odd in
          new_root h (acc'.trees h) (trees' h) odd
            (p.done h (Belongs-height acc.num_leaves h _ (omega (arith, small)) b)));
    };
    replaced = λ h lt.
        All-Pairs _ (Low crypto leaf' h) _
          (λ l l' q low. Low-Replaced crypto leaf leaf' acc.num_leaves h l l' q low) (grouped h)
          (trees' h) (grouped-Placed h) (p.done h lt).fresh;
    touched = λ h m lt b. elim (grouped-others h m b) [
      | inl e ↦ inl e
      | inr t ↦ inr (
          Touches-Pairs (Low crypto leaf' h) (λ l l' q. Reproved-index l l' q.same_leaf) m
            (grouped h) (trees' h) (p.done h lt).fresh t)
    ];
  }

  heights : All (λ (l : ElementLeaf). length l.merkle_proof < 64) leaves
  heights =
      All-map _ _
        (λ l (t, b, e). omega (
          arith,
          Belongs-height acc.num_leaves t l.leaf_index (omega (arith, small)) b,
          ap length e ∙ length-path crypto leaf t l.leaf_index,
        ))
        leaves proofs

  pub update_leaves-Overwritten :
      (acc' : Accumulator) × (trees' : ℕ → List ElementLeaf) × (update_leaves crypto acc leaves
        ≡ some (acc', trees'))
      × Overwritten crypto leaf leaf' acc.num_leaves acc' trees'
  unfolding update_leaves
  update_leaves-Overwritten =
      let (trees, grouping, same) = group_trees-sort_leaves leaves distinct heights in
      let (acc', trees', found, p) =
        update_trees-Progress crypto leaf leaf' 64 acc grouped (λ h lt. grouped-Treatable h) in
      (
        acc',
        trees',
        rw grouping (ap (λ t. update_trees crypto 64 (acc, t)) (fun_ext (λ h. (same h).0)) ∙ found),
        Progress-Overwritten acc' trees' p,
      )
