-- ===== src/Tests/Updates.antt =====
-- An accumulator with three leaves: the first is updated, and two are added.
use sunyata.Common.{
  ℕ, ◌-◌, ◌/◌, ◌^◌, ◌<◌, ◌≡◌, ◌⊎◌, inl, inr, refl, arith, Bool, false, true, some, List, [], ◌∷◌,
  All, Bool-cases, ◌==◌, ==_iff, if◌then◌else◌,
}
use sunyata.Types.{Hash256, StateElement}
use sunyata.Merkle.Hash.{ElementLeaf, leaf_hash, output_leaf}
use sunyata.Merkle.Forest.{node, path}
use sunyata.Merkle.Accumulator.{Accumulator, placed, contains_leaf}
use sunyata.Merkle.Accumulator.Tracking.{Represents, IsProof}
use sunyata.Merkle.Update.{sort_leaves, group_trees}
use sunyata.Merkle.Update.Recompute.{Sorted, Touches}
use sunyata.Merkle.Update.Groups.{of_height}
use sunyata.Merkle.Update.Groups.Runs.{group_trees-sort_leaves}
use sunyata.Merkle.Elements.{
  ElementApplyUpdate, ElementRevertUpdate, apply_block, apply_element_proof, revert_block,
  revert_element_proof,
}
use sunyata.Merkle.Elements.Applied.{apply_block-Represents, apply_element_proof-contains}
use sunyata.Merkle.Elements.Reverted.{revert_element_proof-contains}
use sunyata.Tests.Data.{toy, parent}

abbrev fresh : ElementLeaf
fresh = output_leaf toy parent false

-- Every leaf is of the same output; then the first one is spent.
abbrev before : ℕ → Hash256
before i = leaf_hash toy (placed fresh i)

abbrev proven : ℕ → List Hash256 → Bool → ElementLeaf
proven i proof spent = record fresh {
  state_element = record fresh.state_element { leaf_index = i; merkle_proof = proof };
  spent = spent;
}

abbrev spent_first : ElementLeaf
spent_first = proven 0 (path toy before 1 0) true

abbrev after : ℕ → Hash256
after i = if i == 0 then leaf_hash toy spent_first else before i

abbrev three : Accumulator
three = record { trees = λ h. node toy before h (3 / 2 ^ h - 1); num_leaves = 3 }

three-Represents : Represents toy before three
three-Represents = record { roots = λ h odd. refl }

abbrev two_more : List ElementLeaf
two_more = fresh ∷ fresh ∷ []

others_same : (m : ℕ) → m < 3 → (after m ≡ before m) ⊎ Touches m (spent_first ∷ [])
others_same m lt = elim (Bool-cases (m == 0)) [
  | inl e ↦ let at : 0 ≡ m = omega (arith, (==_iff m 0).0 e) in inr (inl at)
  | inr e ↦ inl (rw e refl)
]

apply_block-Represents_example :
    (acc' : Accumulator) × (eau : ElementApplyUpdate) × (added' : List ElementLeaf) × (apply_block
        toy three
        (spent_first ∷ [])
        two_more
      ≡ some (acc', eau, added'))
    × (acc'.num_leaves ≡ 5)
    × Represents toy after acc'
    × All (λ l. contains_leaf toy acc' l ≡ true) added'
apply_block-Represents_example =
    apply_block-Represents toy before after three (spent_first ∷ []) two_more three-Represents
      (omega arith) (omega arith) (tt, tt) ((1, record { present = refl; inside = refl }, refl), tt)
      (refl, tt) others_same (refl, (refl, tt))

-- The second leaf, the sibling of the first.
abbrev second : ElementLeaf
second = proven 1 (path toy before 1 1) false

apply_element_proof-contains_example :
    (acc' : Accumulator) × (eau : ElementApplyUpdate) × (added' : List ElementLeaf)
    × (e : StateElement) × (apply_block toy three (spent_first ∷ []) two_more
        ≡ some (acc', eau, added'))
    × (apply_element_proof toy eau second.state_element ≡ some e)
    × (e ≡ record second.state_element { merkle_proof = e.merkle_proof })
    × IsProof toy after acc'.num_leaves 1 e.merkle_proof
    × (contains_leaf toy acc' (record second { state_element = e }) ≡ true)
unfolding path output_leaf leaf_hash
apply_element_proof-contains_example =
    apply_element_proof-contains toy before after three (spent_first ∷ []) two_more three-Represents
      (omega arith) (omega arith) (tt, tt) ((1, record { present = refl; inside = refl }, refl), tt)
      (refl, tt) others_same (refl, (refl, tt)) second
      (1, record { present = refl; inside = refl }, refl) refl

-- The block is taken back: its five leaves stand for `after`, the three before it for `before`.
unspent_first : ElementLeaf
unspent_first = proven 0 (path toy before 1 0) false

others_back : (m : ℕ) → m < 3 → (before m ≡ after m) ⊎ Touches m (unspent_first ∷ [])
unfolding unspent_first
others_back m lt = elim (Bool-cases (m == 0)) [
  | inl e ↦ let at : 0 ≡ m = omega (arith, (==_iff m 0).0 e) in inr (inl at)
  | inr e ↦ inl (rw e refl)
]

-- The second leaf lies under five leaves in the tree of height 2.
abbrev later_second : ElementLeaf
later_second = proven 1 (path toy after 2 1) false

revert_element_proof-contains_example :
    (eru : ElementRevertUpdate) × (e : StateElement) × (revert_block three (unspent_first ∷ [])
      ≡ some eru)
    × (revert_element_proof toy eru later_second.state_element ≡ some e)
    × IsProof toy before 3 1 e.merkle_proof
    × (contains_leaf toy three (record later_second { state_element = e }) ≡ true)
unfolding unspent_first path output_leaf leaf_hash
revert_element_proof-contains_example =
    revert_element_proof-contains toy before after three (unspent_first ∷ []) three-Represents
      (omega arith) ((1, record { present = refl; inside = refl }, refl), tt) (refl, tt) others_back
      5 later_second (omega arith) (omega arith) refl
      (2, record { present = refl; inside = refl }, refl)

-- Leaves of two trees, out of order.
abbrev two_trees : List ElementLeaf
two_trees = second ∷ proven 2 [] false ∷ unspent_first ∷ []

group_trees-sort_leaves_example :
    (trees : ℕ → List ElementLeaf) × (group_trees 3 (sort_leaves two_trees) (λ h. []) ≡ some trees)
    × ((h : ℕ) → (trees h ≡ of_height h (sort_leaves two_trees)) × Sorted (trees h))
unfolding unspent_first path
group_trees-sort_leaves_example =
    group_trees-sort_leaves two_trees
      (
        (λ e. absurd (omega (arith, e)), (λ e. absurd (omega (arith, e)), tt)),
        ((λ e. absurd (omega (arith, e)), tt), (tt, tt)),
      )
      (omega arith, (omega arith, (omega arith, tt)))
