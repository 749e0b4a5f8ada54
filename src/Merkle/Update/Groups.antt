-- ===== src/Merkle/Update/Groups.antt =====
-- The sort of updateLeaves: the leaves of each tree stand by increasing index.
pub mod Runs
use mathlib.Core.List.{cons≢nil}
use sunyata.Common.{
  ℕ, zero, suc, ◌+◌, ◌≤◌, ◌<◌, ◌≡◌, ◌≢◌, ◌⊎◌, refl, sym, ap, ◌∙◌, inl, inr, arith, Bool, true,
  false, Option, none, some, List, [], ◌∷◌, ◌++◌, length, All, All-map, Bool-cases, ltb, ltb→lt,
  lt→ltb, ltb-false→le, ◌==◌, ==_iff, ==-refl, if◌then◌else◌, subst,
}
use sunyata.Types.{Hash256}
use sunyata.Merkle.Hash.{ElementLeaf}
use sunyata.Merkle.Accumulator.{update}
use sunyata.Merkle.Update.{leaf_before, insert_leaf, sort_leaves, same_length, group_trees}
use sunyata.Merkle.Update.Recompute.{Sorted, Touches}

-- The leaves of the tree of height `h`.
abbrev pub of_height : ℕ → List ElementLeaf → List ElementLeaf
of_height h [] = []
of_height h (l ∷ ls) = if length l.merkle_proof == h then l ∷ of_height h ls else of_height h ls

-- No two leaves have the same index.
abbrev pub Distinct : List ElementLeaf → Type 0
Distinct [] = Unit
Distinct (l ∷ ls) = All (λ (m : ElementLeaf). m.leaf_index ≢ l.leaf_index) ls × Distinct ls

-- The order of the sort, strict.
abbrev pub Before : ElementLeaf → ElementLeaf → Type 0
Before l m =
    (length l.merkle_proof < length m.merkle_proof)
    ⊎ ((length l.merkle_proof ≡ length m.merkle_proof) × (l.leaf_index < m.leaf_index))

abbrev pub Ordered : List ElementLeaf → Type 0
Ordered [] = Unit
Ordered (l ∷ ls) = All (Before l) ls × Ordered ls

Before-trans : (a b c : ElementLeaf) → Before a b → Before b c → Before a c
Before-trans a b c p q = grind arith

insert_leaf-All :
    (P : ElementLeaf → Type 0) (l : ElementLeaf) (ms : List ElementLeaf)
    → P l
    → All P ms
    → All P (insert_leaf l ms)
unfolding insert_leaf
insert_leaf-All P l [] p ps = (p, tt)
insert_leaf-All P l (m ∷ ms) p ps = elim (Bool-cases (leaf_before l m)) [
  | inl e ↦ rw e (p, ps)
  | inr e ↦ rw e (ps.0, insert_leaf-All P l ms p ps.1)
]

Before-yes : (l m : ElementLeaf) → leaf_before l m ≡ true → Before l m
Before-yes l m e = ground arith

Before-no : (l m : ElementLeaf) → m.leaf_index ≢ l.leaf_index → leaf_before l m ≡ false → Before m l
Before-no l m ne e = ground arith

insert_leaf-Ordered :
    (l : ElementLeaf) (ms : List ElementLeaf)
    → All (λ (m : ElementLeaf). m.leaf_index ≢ l.leaf_index) ms
    → Ordered ms
    → Ordered (insert_leaf l ms)
unfolding insert_leaf
insert_leaf-Ordered l [] ne o = (tt, tt)
insert_leaf-Ordered l (m ∷ ms) ne o = elim (Bool-cases (leaf_before l m)) [
  | inl e ↦
      let b = Before-yes l m e in rw e ((b, All-map _ _ (λ c q. Before-trans l m c b q) ms o.0), o)
  | inr e ↦ rw e (
    insert_leaf-All (Before m) l ms (Before-no l m ne.0 e) o.0,
    insert_leaf-Ordered l ms ne.1 o.1,
  )
]

pub sort_leaves-All :
    (P : ElementLeaf → Type 0) (ls : List ElementLeaf) → All P ls → All P (sort_leaves ls)
unfolding sort_leaves
sort_leaves-All P [] ps = tt
sort_leaves-All P (l ∷ ls) ps =
    insert_leaf-All P l (sort_leaves ls) ps.0 (sort_leaves-All P ls ps.1)

pub sort_leaves-Ordered : (ls : List ElementLeaf) → Distinct ls → Ordered (sort_leaves ls)
unfolding sort_leaves
sort_leaves-Ordered [] d = tt
sort_leaves-Ordered (l ∷ ls) d =
    insert_leaf-Ordered l (sort_leaves ls) (sort_leaves-All _ ls d.0) (sort_leaves-Ordered ls d.1)

pub of_height-All :
    (P : ElementLeaf → Type 0) (h : ℕ) (ls : List ElementLeaf)
    → All P ls
    → All (λ l. P l × (length l.merkle_proof ≡ h)) (of_height h ls)
of_height-All P h [] ps = tt
of_height-All P h (l ∷ ls) ps = elim (Bool-cases (length l.merkle_proof == h)) [
  | inl e ↦ rw e ((ps.0, (==_iff _ _).0 e), of_height-All P h ls ps.1)
  | inr e ↦ rw e (of_height-All P h ls ps.1)
]

pub of_height-Sorted : (h : ℕ) (ls : List ElementLeaf) → Ordered ls → Sorted (of_height h ls)
of_height-Sorted h [] o = tt
of_height-Sorted h (l ∷ ls) o = elim (Bool-cases (length l.merkle_proof == h)) [
  | inl e ↦
      let here = (==_iff (length l.merkle_proof) h).0 e in
      rw e (
        All-map _ _ (λ m (b, at). grind arith) (of_height h ls) (of_height-All (Before l) h ls o.0),
        of_height-Sorted h ls o.1,
      )
  | inr e ↦ rw e (of_height-Sorted h ls o.1)
]

insert_leaf-Touches :
    (m : ℕ) (l : ElementLeaf) (ls : List ElementLeaf)
    → Touches m (l ∷ ls)
    → Touches m (insert_leaf l ls)
unfolding insert_leaf
insert_leaf-Touches m l [] t = t
insert_leaf-Touches m l (k ∷ ks) t = elim (Bool-cases (leaf_before l k)) [
  | inl e ↦ rw e t
  | inr e ↦ rw e (elim t [
    | inl at ↦ inr (insert_leaf-Touches m l ks (inl at))
    | inr rest ↦ elim rest [
      | inl at ↦ inl at
      | inr later ↦ inr (insert_leaf-Touches m l ks (inr later))
    ]
  ])
]

pub sort_leaves-Touches :
    (m : ℕ) (ls : List ElementLeaf) → Touches m ls → Touches m (sort_leaves ls)
unfolding sort_leaves
sort_leaves-Touches m [] t = t
sort_leaves-Touches m (l ∷ ls) (inl e) = insert_leaf-Touches m l (sort_leaves ls) (inl e)
sort_leaves-Touches m (l ∷ ls) (inr t) =
    insert_leaf-Touches m l (sort_leaves ls) (inr (sort_leaves-Touches m ls t))

pub of_height-Touches :
    (m h : ℕ) (ls : List ElementLeaf)
    → All (λ (l : ElementLeaf). l.leaf_index ≡ m → length l.merkle_proof ≡ h) ls
    → Touches m ls
    → Touches m (of_height h ls)
of_height-Touches m h [] at t = t
of_height-Touches m h (l ∷ ls) at (inl e) =
    rw ((==_iff (length l.merkle_proof) h).1 (at.0 e)) (inl e)
of_height-Touches m h (l ∷ ls) at (inr t) =
    let rest = of_height-Touches m h ls at.1 t in
    elim (Bool-cases (length l.merkle_proof == h)) [ inl e ↦ rw e (inr rest) | inr e ↦ rw e rest ]

insert_leaf-length :
    (l : ElementLeaf) (ms : List ElementLeaf) → length (insert_leaf l ms) ≡ suc (length ms)
unfolding insert_leaf
insert_leaf-length l [] = refl
insert_leaf-length l (m ∷ ms) = elim (Bool-cases (leaf_before l m)) [
  | inl e ↦ rw e refl
  | inr e ↦ rw e (ap suc (insert_leaf-length l ms))
]

pub sort_leaves-length : (ls : List ElementLeaf) → length (sort_leaves ls) ≡ length ls
unfolding sort_leaves
sort_leaves-length [] = refl
sort_leaves-length (l ∷ ls) = insert_leaf-length l (sort_leaves ls) ∙ ap suc (sort_leaves-length ls)
