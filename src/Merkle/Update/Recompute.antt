-- ===== src/Merkle/Update/Recompute.antt =====
-- recompute of updateLeaves: from leaves with old proofs to the new root and new proofs.
use sunyata.Common.{
  ℕ, zero, suc, ◌+◌, ◌*◌, ◌/◌, ◌^◌, ◌≤◌, ◌<◌, ◌≡◌, ◌≢◌, ◌⊎◌, refl, sym, ap, ap₂, ◌∙◌, inl, inr,
  arith, some, List, [], ◌∷◌, ◌++◌, length, get_elem?, set_elem, length-set_elem,
  get_elem?-set_elem, get_elem?-set_elem_other, All, All-map, Pairs, All-Pairs, Bool-cases, ltb,
  ltb→lt, ltb-false→le, subst,
}
use sunyata.Common.Powers.{two-pow-suc}
use sunyata.Types.{Crypto, Hash256}
use sunyata.Merkle.Bits.{sibling}
use sunyata.Merkle.Hash.{ElementLeaf, leaf_hash, node_hash}
use sunyata.Merkle.Forest.{node}
use sunyata.Merkle.Update.{split_leaves, with_proof, set_proofs, first_proof, half, recompute}

-- Strictly increasing leaf indices.
abbrev pub Sorted : List ElementLeaf → Type 0
Sorted [] = Unit
Sorted (l ∷ ls) = All (λ (x : ElementLeaf). l.leaf_index < x.leaf_index) ls × Sorted ls

-- `m` is the index of one of the leaves.
abbrev pub Touches : ℕ → List ElementLeaf → Type 0
Touches m [] = ⊥
Touches m (l ∷ ls) = (l.leaf_index ≡ m) ⊎ Touches m ls

abbrev pub In : ℕ → ℕ → ElementLeaf → Type 0
In i j l = (i ≤ l.leaf_index) × (l.leaf_index < j)

-- What splitLeaves promises.
abbrev pub Split : ℕ → List ElementLeaf → List ElementLeaf → List ElementLeaf → Type 0
Split mid ls left right =
    (ls ≡ left ++ right)
    × All (λ (l : ElementLeaf). l.leaf_index < mid) left
    × All (λ (l : ElementLeaf). mid ≤ l.leaf_index) right

pub split_leaves-Split :
    (ls : List ElementLeaf) (mid : ℕ)
    → Sorted ls
    → Split mid ls (split_leaves ls mid).0 (split_leaves ls mid).1
unfolding split_leaves
split_leaves-Split [] mid s = (refl, tt, tt)
split_leaves-Split (l ∷ ls) mid s = elim (Bool-cases (ltb l.leaf_index mid)) [
  | inl e ↦
      let (same, low, high) = split_leaves-Split ls mid s.1 in
      rw e (ap (λ x. l ∷ x) same, (ltb→lt _ _ e, low), high)
  | inr e ↦
      let le = ltb-false→le _ _ e in
      rw e (refl, tt, (le, All-map _ _ (λ x lt. omega (arith, le, lt)) ls s.0))
]

pub Sorted-append : (xs ys : List ElementLeaf) → Sorted (xs ++ ys) → Sorted xs × Sorted ys
Sorted-append [] ys s = (tt, s)
Sorted-append (x ∷ xs) ys s =
    let rest = Sorted-append xs ys s.1 in ((All-left _ xs ys s.0, rest.0), rest.1)
  where
    All-left : (P : ElementLeaf → Type 0) (us vs : List ElementLeaf) → All P (us ++ vs) → All P us
    All-left P [] vs h = tt
    All-left P (u ∷ us) vs h = (h.0, All-left P us vs h.1)

pub All-split :
    (P : ElementLeaf → Type 0) (xs ys : List ElementLeaf) → All P (xs ++ ys) → All P xs × All P ys
All-split P [] ys h = (tt, h)
All-split P (x ∷ xs) ys h = let rest = All-split P xs ys h.1 in ((h.0, rest.0), rest.1)

pub Touches-split :
    (m : ℕ) (xs ys : List ElementLeaf) → Touches m (xs ++ ys) → Touches m xs ⊎ Touches m ys
Touches-split m [] ys t = inr t
Touches-split m (x ∷ xs) ys (inl e) = inl (inl e)
Touches-split m (x ∷ xs) ys (inr t) = elim (Touches-split m xs ys t) [
  | inl l ↦ inl (inr l)
  | inr r ↦ inr r
]

pub Touches-All :
    (P : ℕ → Type 0) (m : ℕ) (ls : List ElementLeaf)
    → Touches m ls
    → All (λ (l : ElementLeaf). P l.leaf_index) ls
    → P m
Touches-All P m [] t h = absurd t
Touches-All P m (l ∷ ls) (inl e) h = subst P e h.0
Touches-All P m (l ∷ ls) (inr t) h = Touches-All P m ls t h.1

-- The proof changes and keeps its length.
abbrev pub Reproved : ElementLeaf → ElementLeaf → Type 0
Reproved l l' = (p : List Hash256) × (l' ≡ with_proof l p) × (length p ≡ length l.merkle_proof)

-- Only the entry at `h` changes, to `v`.
pub record Top (h : ℕ) (v : Hash256) (l l' : ElementLeaf) : Type 0 where
  pub same_leaf : Reproved l l'
  pub at_top : get_elem? l'.merkle_proof h ≡ some v
  pub elsewhere : (j : ℕ) → j ≢ h → get_elem? l'.merkle_proof j ≡ get_elem? l.merkle_proof j

pub Touches-Pairs :
    (R : ElementLeaf → ElementLeaf → Type 0)
    → ((l l' : ElementLeaf) → R l l' → l'.leaf_index ≡ l.leaf_index)
    → (m : ℕ) (ls ls' : List ElementLeaf) → Pairs R ls ls'
    → Touches m ls
    → Touches m ls'
Touches-Pairs R f m [] ls' r t = absurd t
Touches-Pairs R f m (l ∷ ls) [] r t = absurd r
Touches-Pairs R f m (l ∷ ls) (l' ∷ ls') r (inl e) = inl (f l l' r.0 ∙ e)
Touches-Pairs R f m (l ∷ ls) (l' ∷ ls') r (inr t) = inr (Touches-Pairs R f m ls ls' r.1 t)

pub Reproved-index : (l l' : ElementLeaf) → Reproved l l' → l'.leaf_index ≡ l.leaf_index
Reproved-index l l' (p, e, len) = ap (λ (x : ElementLeaf). x.leaf_index) e

pub Reproved-length :
    (l l' : ElementLeaf) → Reproved l l' → length l'.merkle_proof ≡ length l.merkle_proof
Reproved-length l l' (p, e, len) = ap (λ (x : ElementLeaf). length x.merkle_proof) e ∙ len

set_proofs-Top :
    (h : ℕ) (v : Hash256) (ls : List ElementLeaf)
    → All (λ (l : ElementLeaf). h < length l.merkle_proof) ls
    → Pairs (Top h v) ls (set_proofs h v ls)
unfolding set_proofs
set_proofs-Top h v [] long = tt
set_proofs-Top h v (l ∷ ls) long = (
  record {
    same_leaf = (set_elem l.merkle_proof h v, refl, length-set_elem l.merkle_proof h v);
    at_top = get_elem?-set_elem l.merkle_proof h v long.0;
    elsewhere = λ j ne. get_elem?-set_elem_other l.merkle_proof h j v ne;
  },
  set_proofs-Top h v ls long.1,
)

-- Sorted leaves stay sorted, since the indices stay.
Sorted-Pairs :
    (R : ElementLeaf → ElementLeaf → Type 0)
    → ((l l' : ElementLeaf) → R l l' → l'.leaf_index ≡ l.leaf_index)
    → (ls ls' : List ElementLeaf) → Pairs R ls ls'
    → Sorted ls
    → Sorted ls'
Sorted-Pairs R f [] [] r s = tt
Sorted-Pairs R f [] (l' ∷ ls') r s = absurd r
Sorted-Pairs R f (l ∷ ls) [] r s = absurd r
Sorted-Pairs R f (l ∷ ls) (l' ∷ ls') r s = (
  All-Pairs (λ (x : ElementLeaf). l.leaf_index < x.leaf_index) R
      (λ (x : ElementLeaf). l'.leaf_index < x.leaf_index)
      (λ a b lt r'. omega (arith, lt, f a b r', f l l' r.0)) ls ls' s.0 r.1,
  Sorted-Pairs R f ls ls' r.1 s.1,
)

-- The two halves of a range start at the even and at the odd child.
pub double_start : (k h : ℕ) → k * 2 ^ suc h ≡ 2 * k * 2 ^ h
double_start k h = rw (two-pow-suc h) (grind arith)

pub odd_start : (k h : ℕ) → (2 * k + 1) * 2 ^ h ≡ 2 * k * 2 ^ h + 2 ^ h
odd_start k h = grind arith

module _ (crypto : Crypto) where
  -- The entry of a proof at height `j` is the sibling over the leaves.
  abbrev pub Entry : (ℕ → Hash256) → ElementLeaf → ℕ → Type 0
  Entry leaf l j =
      get_elem? l.merkle_proof j ≡ some (node crypto leaf j (sibling (l.leaf_index / 2 ^ j)))

  -- The entries below `h` become those over `leaf'`; the others stay.
  pub record Low (leaf' : ℕ → Hash256) (h : ℕ) (l l' : ElementLeaf) : Type 0 where
    pub same_leaf : Reproved l l'
    pub below : (j : ℕ) → j < h → Entry leaf' l' j
    pub above : (j : ℕ) → h ≤ j → get_elem? l'.merkle_proof j ≡ get_elem? l.merkle_proof j

  -- Sequences that agree on the range have the same root over it.
  pub node-agree :
      (leaf leaf' : ℕ → Hash256) (h k : ℕ)
      → ((m : ℕ) → k * 2 ^ h ≤ m → m < k * 2 ^ h + 2 ^ h → leaf' m ≡ leaf m)
      → node crypto leaf' h k ≡ node crypto leaf h k
  unfolding node
  node-agree leaf leaf' zero k same = same k (omega arith) (omega arith)
  node-agree leaf leaf' (suc h) k same =
      let p = two-pow-suc h in
      let start = double_start k h in
      ap₂ (node_hash crypto)
        (node-agree leaf leaf' h (2 * k)
          (λ m lo hi. same m (omega (arith, start, lo)) (omega (arith, start, p, hi))))
        (node-agree leaf leaf' h (2 * k + 1) (λ m lo hi.
          let second = odd_start k h in
          same m (omega (arith, start, second, lo)) (omega (arith, start, second, p, hi))))

  module _ (leaf leaf' : ℕ → Hash256) where
    -- The leaves lie in the range of height `h` at `k`, with the proofs over `leaf`, and their new
    -- hashes are those of `leaf'`.
    pub record Ready (h k : ℕ) (ls : List ElementLeaf) : Type 0 where
      pub sorted : Sorted ls
      pub inside : All (In (k * 2 ^ h) (k * 2 ^ h + 2 ^ h)) ls
      pub long : All (λ (l : ElementLeaf). h ≤ length l.merkle_proof) ls
      pub old : All (λ l. (j : ℕ) → j < h → Entry leaf l j) ls
      pub hashed : All (λ l. leaf' l.leaf_index ≡ leaf_hash crypto l) ls

    -- The sequences agree on the range, but for the leaves.
    abbrev pub Agree : ℕ → ℕ → List ElementLeaf → Type 0
    Agree h k ls =
        (m : ℕ) → k * 2 ^ h ≤ m → m < k * 2 ^ h + 2 ^ h → (leaf' m ≡ leaf m) ⊎ Touches m ls

    -- The new root, and the leaves with the new proofs below the height.
    abbrev pub Recomputed : ℕ → ℕ → List ElementLeaf → Type 0
    Recomputed h k ls =
        (ls' : List ElementLeaf) × (recompute crypto h (k * 2 ^ h) ls
          ≡ some (node crypto leaf' h k, ls'))
        × Pairs (Low leaf' h) ls ls'

    pub Ready-Top :
        (h k : ℕ) (v : Hash256) (ls ls' : List ElementLeaf)
        → Pairs (Top h v) ls ls'
        → Ready h k ls
        → Ready h k ls'
    unfolding leaf_hash
    Ready-Top h k v ls ls' top r = record {
      sorted = Sorted-Pairs (Top h v) index ls ls' top r.sorted;
      inside = All-Pairs _ (Top h v) _ (λ a b q p. rw (index a b p) q) ls ls' r.inside top;
      long =
          All-Pairs _ (Top h v) _ (λ a b q p. omega (arith, q, Reproved-length a b p.same_leaf)) ls
            ls' r.long top;
      old =
          All-Pairs _ (Top h v) _
            (λ a b q p j lt.
              rw (index a b p) (p.elsewhere j (λ e. absurd (omega (arith, e, lt))) ∙ q j lt))
            ls ls' r.old top;
      hashed = All-Pairs _ (Top h v) _ (λ a b q p. rw (p.same_leaf.1) q) ls ls' r.hashed top;
    }
      where
        index : (l l' : ElementLeaf) → Top h v l l' → l'.leaf_index ≡ l.leaf_index
        index l l' p = Reproved-index l l' p.same_leaf

    Top-here :
        (h : ℕ) (v : Hash256) (ls : List ElementLeaf)
        → All (λ (l : ElementLeaf). get_elem? l.merkle_proof h ≡ some v) ls
        → Pairs (Top h v) ls ls
    Top-here h v [] e = tt
    Top-here h v (l ∷ ls) e = (
      record { same_leaf = (l.merkle_proof, refl, refl); at_top = e.0; elsewhere = λ j ne. refl },
      Top-here h v ls e.1,
    )

    pub half-lem :
        (h c : ℕ) (here other : List ElementLeaf)
        → ((x : ElementLeaf) (xs : List ElementLeaf)
            → Ready h c (x ∷ xs)
            → Agree h c (x ∷ xs)
            → Recomputed h c (x ∷ xs))
        → Ready h c here
        → Agree h c here
        → All (λ (l : ElementLeaf). h < length l.merkle_proof) other
        → All (λ (l : ElementLeaf). get_elem? l.merkle_proof h ≡ some (node crypto leaf h c)) other
        → ((here ≡ []) → other ≢ [])
        → (here' : List ElementLeaf) × (other' : List ElementLeaf) × (half h
              (recompute crypto h (c * 2 ^ h))
              here
              other
            ≡ some (node crypto leaf' h c, here', other'))
          × Pairs (Low leaf' h) here here'
          × Pairs (Top h (node crypto leaf' h c)) other other'
    unfolding half first_proof
    half-lem h c [] [] ih r a long e some_left = absurd (some_left refl refl)
    half-lem h c [] (o ∷ os) ih r a long e some_left =
        let same : node crypto leaf' h c ≡ node crypto leaf h c =
          node-agree leaf leaf' h c
            (λ m lo hi. elim (a m lo hi) [ inl q ↦ q | inr t ↦ absurd t ]) in
        (
          [],
          o ∷ os,
          rw (e.0, same) refl,
          tt,
          Top-here h (node crypto leaf' h c) (o ∷ os)
              (All-map _ _ (λ l at. at ∙ ap some (sym same)) (o ∷ os) e),
        )
    half-lem h c (x ∷ xs) other ih r a long e some_left =
        let (here', found, low) = ih x xs r a in
        (
          here',
          set_proofs h (node crypto leaf' h c) other,
          rw found refl,
          low,
          set_proofs-Top h (node crypto leaf' h c) other long,
        )
