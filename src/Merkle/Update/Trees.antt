-- ===== src/Merkle/Update/Trees.antt =====
-- The loop of updateLeaves over the trees: every tree with leaves to update gets its new root.
use mathlib.Core.List.{cons≢nil}
use sunyata.Common.{
  ℕ, zero, suc, ◌+◌, ◌-◌, ◌*◌, ◌/◌, ◌^◌, ◌≤◌, ◌<◌, ◌≡◌, ◌≢◌, refl, sym, ap, ◌∙◌, inl, inr, arith,
  some, List, [], ◌∷◌, Pairs, ==-refl, subst,
}
use sunyata.Types.{Crypto, Hash256}
use sunyata.Merkle.Bits.{clear_bits}
use sunyata.Merkle.Hash.{ElementLeaf}
use sunyata.Merkle.Forest.{node}
use sunyata.Merkle.Accumulator.{Accumulator, update, update-here, update-other}
use sunyata.Merkle.Update.{recompute, update_tree, update_trees}
use sunyata.Merkle.Update.Recompute.{Low, Ready, Agree}
use sunyata.Merkle.Update.Tree.{below-cases}
use sunyata.Merkle.Update.Subtree.{recompute_lem}

module _ (crypto : Crypto) (leaf leaf' : ℕ → Hash256) where
  -- What recompute needs of the leaves of one tree.
  pub record Treatable (n h : ℕ) (ls : List ElementLeaf) : Type 0 where
    pub start : clear_bits n (h + 1) ≡ (n / 2 ^ h - 1) * 2 ^ h
    pub small : (n / 2 ^ h - 1) * 2 ^ h + 2 ^ h ≤ 2 ^ 63
    pub ready : Ready crypto leaf leaf' h (n / 2 ^ h - 1) ls
    pub agree : Agree crypto leaf leaf' h (n / 2 ^ h - 1) ls

  -- What a round leaves at its height: a root before and after, and leaves before and after.
  pub record Treated (n h : ℕ) (root root' : Hash256) (ls ls' : List ElementLeaf) : Type 0 where
    pub fresh : Pairs (Low crypto leaf' h) ls ls'
    pub stays : (ls ≡ []) → root' ≡ root
    pub changed : (ls ≢ []) → root' ≡ node crypto leaf' h (n / 2 ^ h - 1)

  -- The state after the rounds below `m`.
  pub record Progress (m : ℕ) (acc acc' : Accumulator) (trees trees' : ℕ → List ElementLeaf)
      : Type 0 where
    pub counted : acc'.num_leaves ≡ acc.num_leaves
    pub done :
        (h : ℕ) → h < m → Treated acc.num_leaves h (acc.trees h) (acc'.trees h) (trees h) (trees' h)
    pub todo : (h : ℕ) → m ≤ h → (acc'.trees h ≡ acc.trees h) × (trees' h ≡ trees h)

  -- One round, of the tree of height `h`.
  abbrev Round : (h : ℕ) → Accumulator → (ℕ → List ElementLeaf) → Type 0
  Round h acc trees =
      (acc' : Accumulator) × (trees' : ℕ → List ElementLeaf) × (update_tree crypto h (acc, trees)
        ≡ some (acc', trees'))
      × (acc'.num_leaves ≡ acc.num_leaves)
      × Treated acc.num_leaves h (acc.trees h) (acc'.trees h) (trees h) (trees' h)
      × ((i : ℕ) → i ≢ h → (acc'.trees i ≡ acc.trees i) × (trees' i ≡ trees i))

  update_tree-changed :
      (h : ℕ) (acc : Accumulator) (trees : ℕ → List ElementLeaf) (l : ElementLeaf)
      (ls ls' : List ElementLeaf)
      → trees h ≡ l ∷ ls
      → recompute crypto h (clear_bits acc.num_leaves (h + 1)) (l ∷ ls)
        ≡ some (node crypto leaf' h (acc.num_leaves / 2 ^ h - 1), ls')
      → Pairs (Low crypto leaf' h) (l ∷ ls) ls'
      → Round h acc trees
  unfolding update_tree
  update_tree-changed h acc trees l ls ls' e found low = (
    record acc { trees = update acc.trees h (node crypto leaf' h (acc.num_leaves / 2 ^ h - 1)) },
    update trees h ls',
    rw (e, found) refl,
    refl,
    record {
      fresh = rw (e, ==-refl h) low;
      stays = λ q. absurd (cons≢nil (sym e ∙ q));
      changed = λ ne. update-here acc.trees h _;
    },
    λ i ne. (update-other acc.trees h i _ ne, update-other trees h i ls' ne),
  )

  update_tree-Treated :
      (h : ℕ) (acc : Accumulator) (trees : ℕ → List ElementLeaf) (ls : List ElementLeaf)
      → trees h ≡ ls
      → ((trees h ≢ []) → Treatable acc.num_leaves h (trees h))
      → Round h acc trees
  unfolding update_tree
  update_tree-Treated h acc trees [] e t = (
    acc,
    trees,
    rw e refl,
    refl,
    record { fresh = rw e tt; stays = λ q. refl; changed = λ ne. absurd (ne e) },
    λ i ne. (refl, refl),
  )
  update_tree-Treated h acc trees (l ∷ ls) e t =
      let k = acc.num_leaves / 2 ^ h - 1 in
      let ok = subst (Treatable acc.num_leaves h) e (t (λ q. cons≢nil (sym e ∙ q))) in
      let (ls', found, low) = recompute_lem crypto leaf leaf' h k l ls ok.small ok.ready ok.agree in
      update_tree-changed h acc trees l ls ls' e
        (ap (λ i. recompute crypto h i (l ∷ ls)) ok.start ∙ found) low

  Treated-same :
      (n n' h : ℕ) (a a' b b' : Hash256) (u u' v v' : List ElementLeaf)
      → n ≡ n'
      → a ≡ a'
      → b ≡ b'
      → u ≡ u'
      → v ≡ v'
      → Treated n h a b u v
      → Treated n' h a' b' u' v'
  Treated-same n n' h a a' b b' u u' v v' en ea eb eu ev t = record {
    fresh =
        subst (λ x. Pairs (Low crypto leaf' h) x v') eu
          (subst (λ x. Pairs (Low crypto leaf' h) u x) ev t.fresh);
    stays = λ q. sym eb ∙ t.stays (eu ∙ q) ∙ ea;
    changed = λ ne.
        sym eb
        ∙ t.changed (λ q. ne (sym eu ∙ q))
        ∙ ap (λ x. node crypto leaf' h (x / 2 ^ h - 1)) en;
  }

  Progress-step :
      (m : ℕ) (acc a b : Accumulator) (trees s t : ℕ → List ElementLeaf)
      → Progress m acc a trees s
      → b.num_leaves ≡ a.num_leaves
      → Treated a.num_leaves m (a.trees m) (b.trees m) (s m) (t m)
      → ((i : ℕ) → i ≢ m → (b.trees i ≡ a.trees i) × (t i ≡ s i))
      → Progress (suc m) acc b trees t
  Progress-step m acc a b trees s t p counted treated others = record {
    counted = counted ∙ p.counted;
    done = λ h lt. elim (below-cases h m lt) [
      | inl lo ↦
          let same = others h (λ e. absurd (omega (arith, e, lo))) in
          Treated-same _ _ h _ _ _ _ _ _ _ _ refl refl (sym same.0) refl (sym same.1) (p.done h lo)
      | inr e ↦
          let before = p.todo m (omega arith) in
          subst (λ i. Treated acc.num_leaves i (acc.trees i) (b.trees i) (trees i) (t i)) (sym e)
            (Treated-same _ _ m _ _ _ _ _ _ _ _ p.counted before.0 refl before.1 refl treated)
    ];
    todo = λ h le.
        let same = others h (λ e. absurd (omega (arith, e, le))) in
        let before = p.todo h (omega (arith, le)) in (same.0 ∙ before.0, same.1 ∙ before.1);
  }

  pub update_trees-Progress :
      (m : ℕ) (acc : Accumulator) (trees : ℕ → List ElementLeaf)
      → ((h : ℕ) → h < m → (trees h ≢ []) → Treatable acc.num_leaves h (trees h))
      → (acc' : Accumulator) × (trees' : ℕ → List ElementLeaf) × (update_trees crypto m (acc, trees)
          ≡ some (acc', trees'))
        × Progress m acc acc' trees trees'
  unfolding update_trees
  update_trees-Progress zero acc trees t = (
    acc,
    trees,
    refl,
    record {
      counted = refl;
      done = λ h lt. absurd (omega (arith, lt));
      todo = λ h le. (refl, refl);
    },
  )
  update_trees-Progress (suc m) acc trees t =
      let (acc', trees', found, p) =
        update_trees-Progress m acc trees (λ h lt. t h (omega (arith, lt))) in
      let before = p.todo m (omega arith) in
      let (acc'', trees'', round, counted, treated, others) =
        update_tree-Treated m acc' trees' (trees' m) refl (λ ne.
          subst (λ ls. Treatable acc'.num_leaves m ls) (sym before.1)
            (subst (λ n. Treatable n m (trees m)) (sym p.counted)
              (t m (omega arith) (λ q. ne (before.1 ∙ q))))) in
      (
        acc'',
        trees'',
        rw found round,
        Progress-step m acc acc' acc'' trees trees' trees'' p counted treated others,
      )
