-- ===== src/Merkle/Accumulator/Walk.antt =====
-- The walk over the heights keeps the roots, the proofs of the batch and the growth of the old
-- trees in step with the forest, and always ends with the leaf inserted.
use native.Mathlib.Nat.{div-add-mod', mod-lt, mul-le-mul_right}
use sunyata.Common.Powers.{two-pow-pos}
use sunyata.Common.Word.{add_u64}
use sunyata.Common.{
  ℕ, zero, suc, ◌+◌, ◌-◌, ◌*◌, ◌/◌, ◌%◌, ◌^◌, ◌≤◌, ◌<◌, ◌≡◌, refl, ap, ◌∙◌, inl, inr, arith, List,
  [], ◌∷◌, ◌++◌, ◌==◌, ==_iff, ltb, ltb→lt, subst, Bool-cases, true, append_assoc, length,
  length-append,
}
use sunyata.Types.{Crypto, Hash256}
use sunyata.Merkle.Bits.{bit, div-two-pow-suc}
use sunyata.Merkle.Hash.{node_hash}
use sunyata.Merkle.Forest.{node, path, length-path}
use sunyata.Merkle.Accumulator.{Accumulator, Adding, extend_proofs, grow, walk, insert_tree, update}
use sunyata.Merkle.Accumulator.Layout.{
  Belongs, Full, Full-suc, div-suc_Full, low_heights_empty, high_heights_same, Belongs-earlier,
  clear_bits-start, start_unit, unit_start_le, cur-eq, prev-eq,
}
use sunyata.Merkle.Accumulator.Tracking.{
  Represents, IsProof, Pending, Pending-new, Pending-old, Pending-rest, Batch, Batch-map,
  extend_proofs-Batch,
}

unit_end : (i p : ℕ) → 0 < p → i < (i / p + 1) * p
unit_end i p pos = omega (arith, div-add-mod' i p, mod-lt i pos)

two_units :
    (n h i : ℕ) → n / 2 ^ h % 2 ≡ 1 → i / 2 ^ suc h < n / 2 ^ suc h → i / 2 ^ h + 2 ≤ n / 2 ^ h
two_units n h i odd lt = omega (arith, div-two-pow-suc i h, div-two-pow-suc n h)

module _ (crypto : Crypto) (leaf : ℕ → Hash256) where
  -- An old leaf's proof, with the growth of its tree, through one merge.
  module _ (initial n h b i : ℕ) (g : ℕ → List Hash256) (full : Full n h) (odd : n / 2 ^ h % 2 ≡ 1)
      (small : n + 1 < 2 ^ 64) (old : Belongs initial b i) where
    grow-cases :
        (old_root hash : Hash256)
        → bit initial b ≡ true
        → ((n / 2 ^ h * 2 ^ h ≤ i / 2 ^ b * 2 ^ b)
            → grow initial n h old_root hash g b ≡ g b ++ old_root ∷ [])
          × (i / 2 ^ b * 2 ^ b < n / 2 ^ h * 2 ^ h
              → n / 2 ^ h * 2 ^ h ≤ i / 2 ^ b * 2 ^ b + 2 ^ h
              → grow initial n h old_root hash g b ≡ g b ++ hash ∷ [])
          × (i / 2 ^ b * 2 ^ b + 2 ^ h < n / 2 ^ h * 2 ^ h
              → grow initial n h old_root hash g b ≡ g b)
    unfolding grow
    grow-cases old_root hash set =
        rw (set, clear_bits-start initial b i old, cur-eq n h full small)
          (
            λ c. ground (arith, prev-eq n h full small odd),
            λ c d. ground (arith, prev-eq n h full small odd),
            λ c. ground (arith, prev-eq n h full small odd),
          )

    short : (t : ℕ) → path crypto leaf b i ++ g b ≡ path crypto leaf t i → b ≤ t
    short t e = omega (
      arith,
      ap length e,
      length-append (path crypto leaf b i) (g b),
      length-path crypto leaf b i,
      length-path crypto leaf t i,
    )

    start : ℕ
    start = i / 2 ^ b * 2 ^ b

    set : bit initial b ≡ true
    set = (==_iff _ _).1 old.present

    -- The start of the old leaf's tree lies in the unit of the leaf.
    start_bounds :
        b ≤ h
        → (i / 2 ^ h * 2 ^ h ≤ i / 2 ^ b * 2 ^ b) × (i / 2 ^ b * 2 ^ b < (i / 2 ^ h + 1) * 2 ^ h)
    start_bounds le = rw (← start_unit i b h le) (
      unit_start_le (i / 2 ^ b * 2 ^ b) (2 ^ h),
      unit_end (i / 2 ^ b * 2 ^ b) (2 ^ h) (two-pow-pos h),
    )

    pub grow-Pending :
        Pending crypto leaf n h i (path crypto leaf b i ++ g b)
        → Pending crypto leaf n (suc h) i (
            path crypto leaf b i
            ++ grow initial n h
                (node crypto leaf h (n / 2 ^ h - 1))
                (node crypto leaf h (n / 2 ^ h))
                g
                b)
    grow-Pending (inl (here, e)) =
        let bounds = start_bounds (short h e) in
        rw
          (
            (grow-cases _ _ set).0 (omega (arith, bounds.0, ap (λ (x : ℕ). x * 2 ^ h) here)),
            ← append_assoc,
          )
          (Pending-new crypto leaf n h i _ odd here (inl (here, e)))
    grow-Pending (inr (t, le, bel, e)) = elim (Bool-cases (h == t)) [
      | inl eq ↦
          let same = (==_iff h t).0 eq in
          let inside : i / 2 ^ h + 1 ≡ n / 2 ^ h = rw same bel.inside in
          let bounds = start_bounds (rw same (short t e)) in
          let unit = ap (λ (x : ℕ). x * 2 ^ h) inside in
          rw
            (
              (grow-cases _ _ set).1 (omega (arith, bounds.1, unit))
                  (omega (arith, bounds.0, unit)),
              ← append_assoc,
            )
            (Pending-old crypto leaf n h i _ odd inside (inr (t, le, bel, e)))
      | inr ne ↦
          let earlier : i / 2 ^ h + 2 ≤ n / 2 ^ h =
            two_units n h i odd (Belongs-earlier n (suc h) t i (ground arith) bel) in
          rw
            ((grow-cases _ _ set).2 (
              omega (
                arith,
                unit_start_le i (2 ^ b),
                unit_end i (2 ^ h) (two-pow-pos h),
                mul-le-mul_right (2 ^ h) earlier,
              )))
            (Pending-rest crypto leaf n h i _ odd (omega arith) (inr (t, le, bel, e)))
    ]

  -- The state of the walk at height `h`, with `hash` the root of the tree that is being built.
  pub record Walking (initial h : ℕ) (hash : Hash256) (s : Adding) : Type 0 where
    pub full : Full s.num_leaves h
    pub small : s.num_leaves + 1 < 2 ^ 64
    pub built : hash ≡ node crypto leaf h (s.num_leaves / 2 ^ h)
    pub rep : Represents crypto leaf s.acc
    pub batch_lem :
        Batch crypto leaf (Pending crypto leaf s.num_leaves h) (suc s.num_leaves) s.batch
    pub grown :
        (b i : ℕ)
        → Belongs initial b i
        → Pending crypto leaf s.num_leaves h i (path crypto leaf b i ++ s.growth b)

  -- Between two leaves: `count` leaves stand in the forest.
  pub record Settled (initial count : ℕ) (s : Adding) : Type 0 where
    pub counted : s.num_leaves ≡ count
    pub rep : Represents crypto leaf s.acc
    pub batch_lem : Batch crypto leaf (IsProof crypto leaf count) count s.batch
    pub grown :
        (b i : ℕ)
        → Belongs initial b i
        → IsProof crypto leaf count i (path crypto leaf b i ++ s.growth b)

  node_pair :
      (h n : ℕ)
      → n / 2 ^ h % 2 ≡ 1
      → node_hash crypto (node crypto leaf h (n / 2 ^ h - 1)) (node crypto leaf h (n / 2 ^ h))
        ≡ node crypto leaf (suc h) (n / 2 ^ suc h)
  unfolding node
  node_pair h n odd = rw (div-two-pow-suc n h) (ground arith)

  merge-Walking :
      (initial h : ℕ) (hash : Hash256) (s : Adding)
      → Walking initial h hash s
      → s.num_leaves / 2 ^ h % 2 ≡ 1
      → Walking initial (suc h) (node_hash crypto (s.trees h) hash) (record s {
        batch = extend_proofs (2 ^ h) (2 ^ h) (s.trees h) hash s.batch;
        growth = grow initial s.num_leaves h (s.trees h) hash s.growth;
      })
  merge-Walking initial h hash s w odd =
      rw (w.rep.roots h odd, w.built)
        (record {
          full = Full-suc s.num_leaves h w.full odd;
          small = w.small;
          built = node_pair h s.num_leaves odd;
          rep = w.rep;
          batch_lem =
              extend_proofs-Batch crypto leaf s.num_leaves h (2 ^ h) (2 ^ h) (suc s.num_leaves)
                s.batch w.full odd (omega arith) (omega arith) (λ _. refl) (omega arith)
                w.batch_lem;
          grown = λ b i old.
              grow-Pending initial s.num_leaves h b i s.growth w.full odd w.small old
                (w.grown b i old);
        })

  insert-IsProof :
      (n h i : ℕ) (p : List Hash256)
      → Full n h
      → n / 2 ^ h % 2 ≡ 0
      → Pending crypto leaf n h i p
      → IsProof crypto leaf (n + 1) i p
  insert-IsProof n h i p full even (inl (same, e)) =
      let up = div-suc_Full n h full in
      (h, record { present = omega (arith, up); inside = omega (arith, up) }, e)
  insert-IsProof n h i p full even (inr (t, le, b, e)) = elim (Bool-cases (h == t)) [
    | inl eq ↦
        let clash : n / 2 ^ h % 2 ≡ 1 = rw ((==_iff h t).0 eq) b.present in absurd (omega arith)
    | inr ne ↦
        let stays = high_heights_same n h t full even (ground arith) in
        (t, record { present = rw stays b.present; inside = rw stays b.inside }, e)
  ]

  -- The roots after the insertion at height `h`.
  roots_after :
      (acc : Accumulator) (h : ℕ) (hash : Hash256)
      → Full acc.num_leaves h
      → acc.num_leaves / 2 ^ h % 2 ≡ 0
      → hash ≡ node crypto leaf h (acc.num_leaves / 2 ^ h)
      → Represents crypto leaf acc
      → (t : ℕ) → (acc.num_leaves + 1) / 2 ^ t % 2 ≡ 1
      → update acc.trees h hash t ≡ node crypto leaf t ((acc.num_leaves + 1) / 2 ^ t - 1)
  roots_after acc h hash full even built rep t odd = elim (Bool-cases (t == h)) [
    | inl eq ↦
        rw (eq, (==_iff t h).0 eq, div-suc_Full acc.num_leaves h full)
          (built ∙ ap (node crypto leaf h) (omega arith))
    | inr ne ↦ elim (Bool-cases (ltb t h)) [
      | inl low ↦ absurd (omega (arith, low_heights_empty acc.num_leaves h t full (ltb→lt _ _ low)))
      | inr high ↦
          let stays = high_heights_same acc.num_leaves h t full even (ground arith) in
          rw (ne, stays) (rep.roots t (rw stays at odd))
    ]
  ]

  insert-Represents :
      (acc : Accumulator) (h : ℕ) (hash : Hash256)
      → Full acc.num_leaves h
      → acc.num_leaves + 1 < 2 ^ 64
      → acc.num_leaves / 2 ^ h % 2 ≡ 0
      → hash ≡ node crypto leaf h (acc.num_leaves / 2 ^ h)
      → Represents crypto leaf acc
      → Represents crypto leaf (insert_tree acc h hash)
  insert-Represents acc h hash full small even built rep = record {
    roots = rw next (roots_after acc h hash full even built rep);
  }
    where
      next : add_u64 acc.num_leaves 1 ≡ acc.num_leaves + 1
      next = omega arith

  insert-Settled :
      (initial h : ℕ) (hash : Hash256) (s : Adding)
      → Walking initial h hash s
      → s.num_leaves / 2 ^ h % 2 ≡ 0
      → Settled initial (s.num_leaves + 1) (record s { acc = insert_tree s.acc h hash })
  insert-Settled initial h hash s w even = record {
    counted = omega (arith, w.small);
    rep = insert-Represents s.acc h hash w.full w.small even w.built w.rep;
    batch_lem =
        let next : suc s.num_leaves ≡ s.num_leaves + 1 = omega arith in
        subst (λ m. Batch crypto leaf (IsProof crypto leaf (s.num_leaves + 1)) m s.batch) next
          (Batch-map crypto leaf (Pending crypto leaf s.num_leaves h) _ (suc s.num_leaves)
            (λ i p lt. insert-IsProof s.num_leaves h i p w.full even) s.batch w.batch_lem);
    grown = λ b i old. insert-IsProof s.num_leaves h i _ w.full even (w.grown b i old);
  }

  pub walk-Settled :
      (fuel initial h : ℕ) (hash : Hash256) (s : Adding)
      → fuel + h ≡ 64
      → Walking initial h hash s
      → Settled initial (s.num_leaves + 1) (walk crypto fuel initial h hash s)
  unfolding walk
  walk-Settled zero initial h hash s e w =
      let top : h ≡ 64 = omega arith in
      absurd (omega (arith, w.full, w.small, ap (λ (x : ℕ). 2 ^ x) top))
  walk-Settled (suc fuel) initial h hash s e w = elim (Bool-cases (bit s.num_leaves h)) [
    | inl odd ↦
        rw (odd, walk)
          (walk-Settled fuel initial (suc h) _ _ (omega arith)
            (merge-Walking initial h hash s w ((==_iff _ _).0 odd)))
    | inr even ↦ rw (even, walk) (insert-Settled initial h hash s w (ground arith))
  ]
