-- ===== src/Merkle/Update/Groups/Runs.antt =====
-- The grouping of updateLeaves: each tree gets its leaves.
use mathlib.Core.List.{cons≢nil}
use sunyata.Common.{
  ℕ, zero, suc, ◌≤◌, ◌<◌, ◌≡◌, ◌≢◌, ◌⊎◌, refl, sym, ap, ◌∙◌, inl, inr, arith, true, false, some,
  List, [], ◌∷◌, length, All, All-map, Bool-cases, lt→ltb, ◌==◌, ==_iff, ==-refl, subst,
}
use sunyata.Merkle.Hash.{ElementLeaf}
use sunyata.Merkle.Accumulator.{update, update-here, update-other}
use sunyata.Merkle.Update.{sort_leaves, same_length, group_trees}
use sunyata.Merkle.Update.Groups.{
  of_height, of_height-Sorted, Ordered, Distinct, sort_leaves-All, sort_leaves-Ordered,
  sort_leaves-length,
}
use sunyata.Merkle.Update.Recompute.{Sorted}

-- What the inner loop cuts off, and what it leaves.
record Run (n : ℕ) (ls run rest : List ElementLeaf) : Type 0 where
  taken : run ≡ of_height n ls
  none_left : of_height n rest ≡ []
  others : (h : ℕ) → h ≢ n → of_height h rest ≡ of_height h ls
  ordered : Ordered rest
  bounded : All (λ (l : ElementLeaf). length l.merkle_proof < 64) rest

pub of_height-here :
    (n : ℕ) (l : ElementLeaf) (ls : List ElementLeaf)
    → length l.merkle_proof ≡ n
    → of_height n (l ∷ ls) ≡ l ∷ of_height n ls
of_height-here n l ls e = rw ((==_iff (length l.merkle_proof) n).1 e) refl

pub of_height-skip :
    (n : ℕ) (l : ElementLeaf) (ls : List ElementLeaf)
    → length l.merkle_proof ≢ n
    → of_height n (l ∷ ls) ≡ of_height n ls
of_height-skip n l ls ne = ground arith

of_height-none :
    (n : ℕ) (ls : List ElementLeaf)
    → All (λ (l : ElementLeaf). n < length l.merkle_proof) ls
    → of_height n ls ≡ []
of_height-none n [] above = refl
of_height-none n (l ∷ ls) above =
    let rest = of_height-none n ls above.1 in let lt = above.0 in ground arith

same_length-shorter : (n : ℕ) (ls : List ElementLeaf) → length (same_length n ls).1 ≤ length ls
unfolding same_length
same_length-shorter n [] = omega arith
same_length-shorter n (l ∷ ls) = elim (Bool-cases (length l.merkle_proof == n)) [
  | inl e ↦ rw e (omega (arith, same_length-shorter n ls))
  | inr e ↦ rw e (omega arith)
]

-- The first leaf is always taken.
same_length-less :
    (l : ElementLeaf) (ls : List ElementLeaf)
    → length (same_length (length l.merkle_proof) (l ∷ ls)).1 ≤ length ls
unfolding same_length
same_length-less l ls =
    rw (==-refl (length l.merkle_proof)) (same_length-shorter (length l.merkle_proof) ls)

same_length-Run :
    (n : ℕ) (ls : List ElementLeaf)
    → Ordered ls
    → All (λ (l : ElementLeaf). n ≤ length l.merkle_proof) ls
    → All (λ (l : ElementLeaf). length l.merkle_proof < 64) ls
    → Run n ls (same_length n ls).0 (same_length n ls).1
unfolding same_length
same_length-Run n [] o above b = record {
  taken = refl;
  none_left = refl;
  others = λ h ne. refl;
  ordered = tt;
  bounded = tt;
}
same_length-Run n (l ∷ ls) o above b = elim (Bool-cases (length l.merkle_proof == n)) [
  | inl e ↦
      let at = (==_iff (length l.merkle_proof) n).0 e in
      let r = same_length-Run n ls o.1 above.1 b.1 in
      rw e record {
        taken = ap (λ x. l ∷ x) r.taken ∙ sym (of_height-here n l ls at);
        none_left = r.none_left;
        others = λ h ne. r.others h ne ∙ sym (of_height-skip h l ls (λ q. ne (sym q ∙ at)));
        ordered = r.ordered;
        bounded = r.bounded;
      }
  | inr e ↦
      let le = above.0 in
      let lt : n < length l.merkle_proof = ground arith in
      let gone = of_height-none n (l ∷ ls) (lt, All-map _ _ (λ m q. grind arith) ls o.0) in
      rw e record {
        taken = sym gone;
        none_left = gone;
        others = λ h ne. refl;
        ordered = o;
        bounded = b;
      }
]

pub List-cases : {A : Type 0} (xs : List A) → (xs ≡ []) ⊎ (xs ≢ [])
List-cases [] = inl refl
List-cases (x ∷ xs) = inr (λ e. cons≢nil e)

-- The trees get the leaves of their height; the trees of other heights stay.
abbrev Grouped : List ElementLeaf → (ℕ → List ElementLeaf) → (ℕ → List ElementLeaf) → Type 0
Grouped ls trees trees' =
    (h : ℕ)
    → ((of_height h ls ≡ []) → trees' h ≡ trees h)
      × ((of_height h ls ≢ []) → trees' h ≡ of_height h ls)

Grouped-step :
    (n : ℕ) (ls run rest : List ElementLeaf) (trees trees' : ℕ → List ElementLeaf)
    → Run n ls run rest
    → of_height n ls ≢ []
    → Grouped rest (update trees n run) trees'
    → Grouped ls trees trees'
Grouped-step n ls run rest trees trees' r some_here g h = go (Bool-cases (h == n))
  where
    go :
        ((h == n) ≡ true) ⊎ ((h == n) ≡ false)
        → ((of_height h ls ≡ []) → trees' h ≡ trees h)
          × ((of_height h ls ≢ []) → trees' h ≡ of_height h ls)
    go (inl e) =
        let at : h ≡ n = (==_iff h n).0 e in
        rw at
          (λ q. absurd (some_here q), λ ne. (g n).0 r.none_left ∙ update-here trees n run ∙ r.taken)
    go (inr e) =
        let ne : h ≢ n = ground arith in
        let same = r.others h ne in
        (
          λ q. (g h).0 (same ∙ q) ∙ update-other trees n h run ne,
          λ some_left. (g h).1 (λ q. some_left (sym same ∙ q)) ∙ same,
        )

group_trees-Grouped :
    (fuel : ℕ) (ls : List ElementLeaf) (trees : ℕ → List ElementLeaf)
    → length ls ≤ fuel
    → Ordered ls
    → All (λ (l : ElementLeaf). length l.merkle_proof < 64) ls
    → (trees' : ℕ → List ElementLeaf) × (group_trees fuel ls trees ≡ some trees')
      × Grouped ls trees trees'
unfolding group_trees
group_trees-Grouped fuel [] trees enough o b =
    (trees, refl, λ h. (λ e. refl, λ ne. absurd (ne refl)))
group_trees-Grouped zero (l ∷ ls) trees enough o b = absurd (omega (arith, enough))
group_trees-Grouped (suc fuel) (l ∷ ls) trees enough o b =
    let n = length l.merkle_proof in
    let r = same_length-Run n (l ∷ ls) o (omega arith, All-map _ _ (λ m q. grind arith) ls o.0) b in
    let (trees', found, g) =
      group_trees-Grouped fuel (same_length n (l ∷ ls)).1
        (update trees n (same_length n (l ∷ ls)).0) (omega (arith, enough, same_length-less l ls))
        r.ordered r.bounded in
    (
      trees',
      rw (lt→ltb n 64 b.0) found,
      Grouped-step n (l ∷ ls) _ _ trees trees' r
          (λ e. cons≢nil (sym (of_height-here n l ls refl) ∙ e)) g,
    )

-- The loop over the sorted leaves of updateLeaves ends within as many rounds as there are leaves,
-- and gives every tree exactly the leaves of its height, in order. The leaves have different
-- indices and proofs of fewer than 64 entries.
pub group_trees-sort_leaves :
    (leaves : List ElementLeaf)
    → Distinct leaves
    → All (λ (l : ElementLeaf). length l.merkle_proof < 64) leaves
    → (trees : ℕ → List ElementLeaf) × (group_trees (length leaves) (sort_leaves leaves) (λ h. [])
        ≡ some trees)
      × ((h : ℕ) → (trees h ≡ of_height h (sort_leaves leaves)) × Sorted (trees h))
group_trees-sort_leaves leaves distinct short =
    let ordered = sort_leaves-Ordered leaves distinct in
    let (trees, found, g) =
      group_trees-Grouped (length leaves) (sort_leaves leaves) (λ h. [])
        (omega (arith, sort_leaves-length leaves)) ordered (sort_leaves-All _ leaves short) in
    let same : (h : ℕ) → trees h ≡ of_height h (sort_leaves leaves) = λ h.
      elim (List-cases (of_height h (sort_leaves leaves))) [
        | inl e ↦ (g h).0 e ∙ sym e
        | inr ne ↦ (g h).1 ne
      ] in
    (
      trees,
      found,
      λ h. (same h, subst Sorted (sym (same h)) (of_height-Sorted h (sort_leaves leaves) ordered)),
    )
