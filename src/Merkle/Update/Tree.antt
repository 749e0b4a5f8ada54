-- ===== src/Merkle/Update/Tree.antt =====
-- recompute of updateLeaves gives the root over the updated leaves, and their proofs.
use native.Mathlib.Nat.{div-eq_of_lt-le}
use sunyata.Common.{
  ℕ, suc, ◌+◌, ◌*◌, ◌/◌, ◌^◌, ◌≤◌, ◌<◌, ◌≡◌, ◌⊎◌, ap, ◌∙◌, inl, inr, arith, some, List, ◌++◌,
  length, All, All-map, All-both, subst,
}
use sunyata.Common.Powers.{two-pow-suc, two-pow-pos}
use sunyata.Types.{Crypto, Hash256}
use sunyata.Merkle.Bits.{sibling}
use sunyata.Merkle.Hash.{ElementLeaf}
use sunyata.Merkle.Forest.{node}
use sunyata.Merkle.Update.{with_proof, middle}
use sunyata.Merkle.Update.Recompute.{
  Sorted, Sorted-append, Touches, Touches-split, Touches-All, In, Split, All-split, Reproved,
  Reproved-index, Top, Low, Entry, Ready, Agree, double_start, odd_start,
}

pub middle-lem :
    (h k : ℕ) → k * 2 ^ suc h + 2 ^ suc h ≤ 2 ^ 63 → middle h (k * 2 ^ suc h) ≡ (2 * k + 1) * 2 ^ h
middle-lem h k small =
    let p = two-pow-suc h in
    let a = double_start k h in
    let b = odd_start k h in let pos = two-pow-pos h in omega (arith, p, a, b, pos, small)

-- The block that an index of a range lies in.
pub range-div : (i h c : ℕ) → c * 2 ^ h ≤ i → i < c * 2 ^ h + 2 ^ h → i / 2 ^ h ≡ c
range-div i h c lo hi = div-eq_of_lt-le (2 ^ h) lo (grind (arith, hi))

-- A leaf of a range, by its height.
pub below-cases : (j h : ℕ) → j < suc h → (j < h) ⊎ (j ≡ h)
below-cases j h lt = omega (arith, lt)

module _ (crypto : Crypto) (leaf' : ℕ → Hash256) where
  -- The leaf under two changes of its proof.
  Reproved-trans : (a b c : ElementLeaf) → Reproved a b → Reproved b c → Reproved a c
  Reproved-trans a b c (p, e, len) (q, e', len') = (
    q,
    e' ∙ ap (λ x. with_proof x q) e,
    len' ∙ ap (λ (x : ElementLeaf). length x.merkle_proof) e ∙ len,
  )

  -- Both steps on a proof of the half that is computed first.
  pub Low-Top :
      (h : ℕ) (v : Hash256) (a b c : ElementLeaf)
      → v ≡ node crypto leaf' h (sibling (a.leaf_index / 2 ^ h))
      → Low crypto leaf' h a b
      → Top h v b c
      → Low crypto leaf' (suc h) a c
  Low-Top h v a b c e low top =
      let ab = Reproved-index a b low.same_leaf in
      let bc = Reproved-index b c top.same_leaf in
      record {
        same_leaf = Reproved-trans a b c low.same_leaf top.same_leaf;
        below = λ j lt. elim (below-cases j h lt) [
          | inl lo ↦ rw bc (top.elsewhere j (λ q. absurd (omega (arith, q, lo))) ∙ low.below j lo)
          | inr q ↦ rw (q, bc, ab) (top.at_top ∙ ap some e)
        ];
        above = λ j le.
            top.elsewhere j (λ q. absurd (omega (arith, q, le))) ∙ low.above j (omega (arith, le));
      }

  -- Both steps on a proof of the other half.
  pub Top-Low :
      (h : ℕ) (v : Hash256) (a b c : ElementLeaf)
      → v ≡ node crypto leaf' h (sibling (a.leaf_index / 2 ^ h))
      → Top h v a b
      → Low crypto leaf' h b c
      → Low crypto leaf' (suc h) a c
  Top-Low h v a b c e top low =
      let ab = Reproved-index a b top.same_leaf in
      let bc = Reproved-index b c low.same_leaf in
      record {
        same_leaf = Reproved-trans a b c top.same_leaf low.same_leaf;
        below = λ j lt. elim (below-cases j h lt) [
          | inl lo ↦ low.below j lo
          | inr q ↦ rw (q, bc, ab) (low.above h (omega arith) ∙ top.at_top ∙ ap some e)
        ];
        above = λ j le.
            low.above j (omega (arith, le)) ∙ top.elsewhere j (λ q. absurd (omega (arith, q, le)));
      }

-- The sibling of the half that an index lies in.
pub sibling-left :
    (h k i : ℕ) → 2 * k * 2 ^ h ≤ i → i < 2 * k * 2 ^ h + 2 ^ h → sibling (i / 2 ^ h) ≡ 2 * k + 1
sibling-left h k i lo hi = rw (range-div i h (2 * k) lo hi) (ground arith)

pub sibling-right :
    (h k i : ℕ)
    → (2 * k + 1) * 2 ^ h ≤ i
    → i < (2 * k + 1) * 2 ^ h + 2 ^ h
    → sibling (i / 2 ^ h) ≡ 2 * k
sibling-right h k i lo hi = rw (range-div i h (2 * k + 1) lo hi) (ground arith)

module _ (crypto : Crypto) (leaf leaf' : ℕ → Hash256) where
  -- A part of the leaves that lies in one half.
  Ready-part :
      (h k c : ℕ) (ls part : List ElementLeaf)
      → Ready crypto leaf leaf' (suc h) k ls
      → Sorted part
      → ((P : ElementLeaf → Type 0) → All P ls → All P part)
      → All (In (c * 2 ^ h) (c * 2 ^ h + 2 ^ h)) part
      → Ready crypto leaf leaf' h c part
  Ready-part h k c ls part r sorted of_part inside = record {
    sorted = sorted;
    inside = inside;
    long = of_part _ (All-map _ _ (λ l le. omega (arith, le)) ls r.long);
    old = of_part _ (All-map _ _ (λ l old j lt. old j (omega (arith, lt))) ls r.old);
    hashed = of_part _ r.hashed;
  }

  -- The two halves of leaves to update, and how they make up the whole.
  pub record Halves (h k : ℕ) (ls left right : List ElementLeaf) : Type 0 where
    pub whole : ls ≡ left ++ right
    pub ready_left : Ready crypto leaf leaf' h (2 * k) left
    pub ready_right : Ready crypto leaf leaf' h (2 * k + 1) right
    pub agree_left : Agree crypto leaf leaf' h (2 * k) left
    pub agree_right : Agree crypto leaf leaf' h (2 * k + 1) right
    pub long_left : All (λ (l : ElementLeaf). h < length l.merkle_proof) left
    pub long_right : All (λ (l : ElementLeaf). h < length l.merkle_proof) right
    pub entry_left : All (λ l. Entry crypto leaf l h) left
    pub entry_right : All (λ l. Entry crypto leaf l h) right

  pub Split-Halves :
      (h k : ℕ) (ls left right : List ElementLeaf)
      → Split ((2 * k + 1) * 2 ^ h) ls left right
      → Ready crypto leaf leaf' (suc h) k ls
      → Agree crypto leaf leaf' (suc h) k ls
      → Halves h k ls left right
  Split-Halves h k ls left right (whole, low, high) r agree =
      let start = double_start k h in
      let second = odd_start k h in
      let p = two-pow-suc h in
      let of_left : (P : ElementLeaf → Type 0) → All P ls → All P left =
        λ P all. (All-split P left right (subst (All P) whole all)).0 in
      let of_right : (P : ElementLeaf → Type 0) → All P ls → All P right =
        λ P all. (All-split P left right (subst (All P) whole all)).1 in
      let sorted = Sorted-append left right (subst Sorted whole r.sorted) in
      record {
        whole = whole;
        ready_left = Ready-part h k (2 * k) ls left r sorted.0 of_left (
            All-both (In (k * 2 ^ suc h) (k * 2 ^ suc h + 2 ^ suc h)) _ _
              (λ l at lt. (omega (arith, start, at.0), omega (arith, start, second, lt))) left
              (of_left _ r.inside) low);
        ready_right = Ready-part h k (2 * k + 1) ls right r sorted.1 of_right (
            All-both (In (k * 2 ^ suc h) (k * 2 ^ suc h + 2 ^ suc h)) _ _
              (λ l at le. (le, omega (arith, start, second, p, at.1))) right (of_right _ r.inside)
              high);
        agree_left = λ m lo hi.
            elim (agree m (omega (arith, start, lo)) (omega (arith, start, p, hi))) [
              | inl e ↦ inl e
              | inr t ↦ elim (Touches-split m left right (subst (Touches m) whole t)) [
                | inl t' ↦ inr t'
                | inr t' ↦
                    let le = Touches-All (λ i. (2 * k + 1) * 2 ^ h ≤ i) m right t' high in
                    absurd (omega (arith, second, le, hi))
              ]
            ];
        agree_right = λ m lo hi.
            elim (agree m (omega (arith, start, second, lo))
              (omega (arith, start, second, p, hi))) [
                | inl e ↦ inl e
                | inr t ↦ elim (Touches-split m left right (subst (Touches m) whole t)) [
                  | inl t' ↦
                      let lt = Touches-All (λ i. i < (2 * k + 1) * 2 ^ h) m left t' low in
                      absurd (omega (arith, lt, lo))
                  | inr t' ↦ inr t'
                ]
              ];
        long_left = of_left _ (All-map _ _ (λ l le. omega (arith, le)) ls r.long);
        long_right = of_right _ (All-map _ _ (λ l le. omega (arith, le)) ls r.long);
        entry_left = of_left _ (All-map _ _ (λ l old. old h (omega arith)) ls r.old);
        entry_right = of_right _ (All-map _ _ (λ l old. old h (omega arith)) ls r.old);
      }
