-- ===== src/Tests/Trees.antt =====
-- An accumulator with one leaf gets two more.
use native.Mathlib.Nat.{div-eq_of_lt}
use sunyata.Common.{
  ℕ, zero, suc, ◌-◌, ◌/◌, ◌%◌, ◌^◌, ◌≤◌, ◌≡◌, refl, arith, true, false, List, [], ◌∷◌, ◌++◌, All,
}
use sunyata.Common.Powers.{two-pow-pos, two-pow-suc}
use sunyata.Types.{Hash256}
use sunyata.Merkle.Hash.{ElementLeaf, leaf_hash, output_leaf}
use sunyata.Merkle.Forest.{node, path}
use sunyata.Merkle.Accumulator.{placed, contains_leaf, add_leaves}
use sunyata.Merkle.Accumulator.Tracking.{Represents, IsProof}
use sunyata.Merkle.Accumulator.Leaves.{add_leaves-Represents, add_leaves-grown}
use sunyata.Tests.Data.{toy, parent, elements}

abbrev first : ElementLeaf
first = output_leaf toy parent false

-- Every leaf is of the same output.
abbrev leaf : ℕ → Hash256
leaf i = leaf_hash toy (placed first i)

elements-Represents : Represents toy leaf elements
unfolding node output_leaf leaf_hash
elements-Represents = record { roots = roots }
  where
    roots : (h : ℕ) → 1 / 2 ^ h % 2 ≡ 1 → elements.trees h ≡ node toy leaf h (1 / 2 ^ h - 1)
    roots zero odd = refl
    roots (suc h) odd =
        let double : 2 ≤ 2 ^ suc h = omega (arith, two-pow-pos h, two-pow-suc h) in
        let none_left : 1 / 2 ^ suc h ≡ 0 = div-eq_of_lt (omega (arith, double)) in
        absurd (omega (arith, none_left, odd))

first-IsProof : IsProof toy leaf 1 0 []
unfolding path
first-IsProof = (0, record { present = refl; inside = refl }, refl)

abbrev two_more : List ElementLeaf
two_more = first ∷ first ∷ []

add_leaves-Represents_example :
    let (acc', added, growth) = add_leaves toy elements two_more in
    (acc'.num_leaves ≡ 3)
    × Represents toy leaf acc'
    × All (λ l. contains_leaf toy acc' l ≡ true) added
add_leaves-Represents_example =
    add_leaves-Represents toy leaf elements two_more elements-Represents (omega arith)
      (refl, (refl, tt))

add_leaves-grown_example :
    let (acc', added, growth) = add_leaves toy elements two_more in
    let l' : ElementLeaf = record first {
      state_element = record first.state_element { merkle_proof = [] ++ growth 0 };
    } in
    IsProof toy leaf acc'.num_leaves 0 l'.merkle_proof × (contains_leaf toy acc' l' ≡ true)
unfolding output_leaf
add_leaves-grown_example =
    add_leaves-grown toy leaf elements two_more elements-Represents (omega arith) (refl, (refl, tt))
      first refl first-IsProof
