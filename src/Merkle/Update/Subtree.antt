-- ===== src/Merkle/Update/Subtree.antt =====
-- recompute of updateLeaves gives the root over the updated leaves, and their proofs.
use sunyata.Common.{
  ℕ, zero, suc, ◌+◌, ◌*◌, ◌^◌, ◌≤◌, ◌≡◌, ◌≢◌, refl, sym, ap, ap₂, ◌∙◌, inl, inr, arith, some, List,
  [], ◌∷◌, ◌++◌, All, All-both, Pairs, Pairs-trans, Pairs-append, All-Pairs, Pairs-All, Pairs-nil,
  subst,
}
use mathlib.Core.List.{cons≢nil}
use sunyata.Common.Powers.{two-pow-suc}
use sunyata.Types.{Crypto, Hash256}
use sunyata.Merkle.Hash.{ElementLeaf}
use sunyata.Merkle.Forest.{node}
use sunyata.Merkle.Update.{split_leaves, half, recompute}
use sunyata.Merkle.Update.Recompute.{
  Touches-Pairs, In, split_leaves-Split, Reproved-index, Reproved-length, Top, Low, Ready,
  Ready-Top, Agree, Recomputed, half-lem, double_start, odd_start,
}
use sunyata.Merkle.Update.Tree.{
  middle-lem, sibling-left, sibling-right, Low-Top, Top-Low, Halves, Split-Halves,
}

module _ (crypto : Crypto) (leaf leaf' : ℕ → Hash256) where
  -- The new leaves of one half, and what became of the other half.
  abbrev Done : (h c : ℕ) → List ElementLeaf → List ElementLeaf → Type 0
  Done h c here other =
      (here' : List ElementLeaf) × (other' : List ElementLeaf) × (half h
          (recompute crypto h (c * 2 ^ h)) here other
        ≡ some (node crypto leaf' h c, here', other'))
      × Pairs (Low crypto leaf' h) here here'
      × Pairs (Top h (node crypto leaf' h c)) other other'

  abbrev Solved : ℕ → Type 0
  Solved h =
      (k : ℕ) (l : ElementLeaf) (ls : List ElementLeaf)
      → k * 2 ^ h + 2 ^ h ≤ 2 ^ 63
      → Ready crypto leaf leaf' h k (l ∷ ls)
      → Agree crypto leaf leaf' h k (l ∷ ls)
      → Recomputed crypto leaf leaf' h k (l ∷ ls)

  left_half :
      (h k : ℕ) (ls left right : List ElementLeaf)
      → k * 2 ^ suc h + 2 ^ suc h ≤ 2 ^ 63
      → Solved h
      → ls ≢ []
      → Halves crypto leaf leaf' h k ls left right
      → Done h (2 * k) left right
  left_half h k ls left right small ih some_leaf x =
      let start = double_start k h in
      let p = two-pow-suc h in
      half-lem crypto leaf leaf' h (2 * k) left right
        (λ l rest r a. ih (2 * k) l rest (omega (arith, start, p, small)) r a) x.ready_left
        x.agree_left x.long_right
        (All-both _ _ _
          (λ l e at.
            e ∙ ap some (ap (node crypto leaf h) (sibling-right h k l.leaf_index at.0 at.1)))
          right x.entry_right x.ready_right.inside)
        (λ e e'. some_leaf (x.whole ∙ ap₂ (λ u v. u ++ v) e e'))

  right_half :
      (h k : ℕ) (ls left right left' right' : List ElementLeaf) (v : Hash256)
      → k * 2 ^ suc h + 2 ^ suc h ≤ 2 ^ 63
      → Solved h
      → ls ≢ []
      → Halves crypto leaf leaf' h k ls left right
      → Pairs (Low crypto leaf' h) left left'
      → Pairs (Top h v) right right'
      → Done h (2 * k + 1) right' left'
  right_half h k ls left right left' right' v small ih some_leaf x low top =
      let start = double_start k h in
      let second = odd_start k h in
      let p = two-pow-suc h in
      half-lem crypto leaf leaf' h (2 * k + 1) right' left'
        (λ l rest r a. ih (2 * k + 1) l rest (omega (arith, start, second, p, small)) r a)
        (Ready-Top crypto leaf leaf' h (2 * k + 1) v right right' top x.ready_right)
        (λ m lo hi. elim (x.agree_right m lo hi) [
          | inl e ↦ inl e
          | inr t ↦ inr (
              Touches-Pairs (Top h v) (λ a b q. Reproved-index a b q.same_leaf) m right right' top
                t)
        ])
        (All-Pairs _ (Low crypto leaf' h) _
          (λ a b lt q. omega (arith, lt, Reproved-length a b q.same_leaf)) left left' x.long_left
          low)
        (All-Pairs _ (Low crypto leaf' h) _ (λ a b e q. q.above h (omega arith) ∙ e) left left'
          (All-both _ _ _
            (λ l e at.
              e ∙ ap some (ap (node crypto leaf h) (sibling-left h k l.leaf_index at.0 at.1)))
            left x.entry_left x.ready_left.inside)
          low)
        (λ e e'. some_leaf (
          x.whole
          ∙ ap₂ (λ u v. u ++ v) (Pairs-nil _ left left' low e') (Pairs-nil _ right right' top e)))

  -- The proofs of both halves, over both steps.
  Low-left :
      (h k : ℕ) (left left' left'' : List ElementLeaf)
      → All (In (2 * k * 2 ^ h) (2 * k * 2 ^ h + 2 ^ h)) left
      → Pairs (Low crypto leaf' h) left left'
      → Pairs (Top h (node crypto leaf' h (2 * k + 1))) left' left''
      → Pairs (Low crypto leaf' (suc h)) left left''
  Low-left h k left left' left'' inside low top =
      Pairs-trans _ _ _
        (λ a b c (at, q) t.
          Low-Top crypto leaf' h _ a b c
            (ap (node crypto leaf' h) (sym (sibling-left h k a.leaf_index at.0 at.1))) q t)
        left left' left'' (Pairs-All _ (Low crypto leaf' h) left left' inside low) top

  Low-right :
      (h k : ℕ) (right right' right'' : List ElementLeaf)
      → All (In ((2 * k + 1) * 2 ^ h) ((2 * k + 1) * 2 ^ h + 2 ^ h)) right
      → Pairs (Top h (node crypto leaf' h (2 * k))) right right'
      → Pairs (Low crypto leaf' h) right' right''
      → Pairs (Low crypto leaf' (suc h)) right right''
  Low-right h k right right' right'' inside top low =
      Pairs-trans _ _ _
        (λ a b c (at, t) q.
          Top-Low crypto leaf' h _ a b c
            (ap (node crypto leaf' h) (sym (sibling-right h k a.leaf_index at.0 at.1))) t q)
        right right' right''
        (Pairs-All _ (Top h (node crypto leaf' h (2 * k))) right right' inside top) low

  both-Halves :
      (h k : ℕ) (ls : List ElementLeaf) (left right : List ElementLeaf)
      → k * 2 ^ suc h + 2 ^ suc h ≤ 2 ^ 63
      → Solved h
      → ls ≢ []
      → split_leaves ls ((2 * k + 1) * 2 ^ h) ≡ (left, right)
      → Halves crypto leaf leaf' h k ls left right
      → Recomputed crypto leaf leaf' (suc h) k ls
  unfolding recompute node
  both-Halves h k ls left right small ih some_leaf e x =
      let (left', right', first, low_left, top_right) =
        left_half h k ls left right small ih some_leaf x in
      let (right'', left'', second, low_right, top_left) =
        right_half h k ls left right left' right' (node crypto leaf' h (2 * k)) small ih some_leaf x
          low_left top_right in
      (
        left'' ++ right'',
        rw (middle-lem h k small, e, double_start k h, first, second) refl,
        subst (λ u. Pairs (Low crypto leaf' (suc h)) u (left'' ++ right'')) (sym x.whole)
            (Pairs-append (Low crypto leaf' (suc h)) left right left'' right''
              (Low-left h k left left' left'' x.ready_left.inside low_left top_left)
              (Low-right h k right right' right'' x.ready_right.inside top_right low_right)),
      )

  pub recompute_lem : (h : ℕ) → Solved h
  unfolding recompute node
  recompute_lem zero k l [] small r agree = (
    l ∷ [],
    ap (λ v. some (v, l ∷ []))
        (sym (r.hashed.0) ∙ ap leaf' (omega (arith, r.inside.0.0, r.inside.0.1))),
    (
      record {
        same_leaf = (l.merkle_proof, refl, refl);
        below = λ j lt. absurd (omega (arith, lt));
        above = λ j le. refl;
      },
      tt,
    ),
  )
  recompute_lem zero k l (l' ∷ ls) small r agree =
      let at = r.inside.0 in
      let at' = r.inside.1.0 in let lt = r.sorted.0.0 in absurd (omega (arith, at.0, at'.1, lt))
  recompute_lem (suc h) k l ls small r agree =
      let mid = (2 * k + 1) * 2 ^ h in
      both-Halves h k (l ∷ ls) (split_leaves (l ∷ ls) mid).0 (split_leaves (l ∷ ls) mid).1 small
        (recompute_lem h) (λ e. cons≢nil e) refl
        (Split-Halves crypto leaf leaf' h k (l ∷ ls) _ _ (split_leaves-Split (l ∷ ls) mid r.sorted)
          r agree)
