-- ===== src/Merkle/Accumulator.antt =====
-- merkle/accumulator.go: Accumulator, ElementAccumulator and the addition of leaves. The array of
-- 64 roots is a function of the height, of which the heights below 64 are used.
pub mod Layout
pub mod Tracking
pub mod Walk
pub mod Leaves
use mathlib.Core.List.{reverse}
use sunyata.Common.{
  ℕ, zero, suc, ◌+◌, ◌-◌, ◌*◌, ◌/◌, ◌%◌, ◌^◌, Bool, true, false, ◌&&◌, List, [], ◌∷◌, ◌++◌, length,
  bytes_eq, ◌==◌, ==-refl, arith, ◌≡◌, ◌≢◌, refl, leb, if◌then◌else◌,
}
use sunyata.Common.Word.{add_u64, sub_u64}
use sunyata.Types.{Crypto, Hash256, StateElement, OutputElement}
use sunyata.Merkle.Bits.{bit, clear_bits}
use sunyata.Merkle.Hash.{ElementLeaf, leaf_hash, leaf_proof_root, node_hash, output_leaf}

pub record Accumulator : Type 0 where
  pub trees : ℕ → Hash256
  pub num_leaves : ℕ

-- `a[i] = v` on an array that is a function, and `a[i] = append(a[i], v)`.
abbrev pub update {ℓ} : {A : Type ℓ} → (ℕ → A) → ℕ → A → ℕ → A
update f i v j = if j == i then v else f j

pub update-here {ℓ} : {A : Type ℓ} (f : ℕ → A) (n : ℕ) (v : A) → update f n v n ≡ v
update-here f n v = rw (==-refl n) refl

pub update-other {ℓ} : {A : Type ℓ} (f : ℕ → A) (n h : ℕ) (v : A) → h ≢ n → update f n v h ≡ f h
update-other f n h v ne = ground arith

-- hasTreeAtHeight
abbrev pub has_tree_at_height : Accumulator → ℕ → Bool
has_tree_at_height acc height = bit acc.num_leaves height

-- `l.MerkleProof = append(l.MerkleProof, h)`
abbrev pub append_proof : ElementLeaf → Hash256 → ElementLeaf
append_proof l h = record l {
  state_element = record l.state_element { merkle_proof = l.merkle_proof ++ h ∷ [] };
}

-- A leaf with its index and an empty proof.
abbrev pub placed : ElementLeaf → ℕ → ElementLeaf
placed l index = record l {
  state_element = record l.state_element { leaf_index = index; merkle_proof = [] };
}

-- The two loops that seek backwards from the newest leaf: the first `m` proofs get `a`, the next
-- `n` get `b`. The leaves stand newest first.
unfoldable pub extend_proofs : ℕ → ℕ → Hash256 → Hash256 → List ElementLeaf → List ElementLeaf
extend_proofs m n a b [] = []
extend_proofs zero zero a b (l ∷ ls) = l ∷ ls
extend_proofs zero (suc n) a b (l ∷ ls) = append_proof l b ∷ extend_proofs zero n a b ls
extend_proofs (suc m) n a b (l ∷ ls) = append_proof l a ∷ extend_proofs m n a b ls

-- The state of addLeaves: the leaves added so far stand newest first.
pub record Adding : Type 0 where
  pub acc : Accumulator
  pub open acc use *
  pub batch : List ElementLeaf
  pub growth : ℕ → List Hash256

-- One round of the loop over treeGrowth, for the trees that there were at first. A height is below
-- 64, but `1<<(height+1)` wraps at 64.
unfoldable pub grow : ℕ → ℕ → ℕ → Hash256 → Hash256 → (ℕ → List Hash256) → ℕ → List Hash256
grow initial num_leaves height old_root h growth b =
    if bit initial b
    then (let cur = sub_u64 (add_u64 num_leaves 1) (2 ^ height) in
        let prev = sub_u64 (add_u64 num_leaves 1) (2 ^ (height + 1) % 2 ^ 64) in
        let start = clear_bits initial (b + 1) in
        if leb cur start
        then growth b ++ old_root ∷ []
        else if leb prev start
        then growth b ++ h ∷ []
        else growth b)
    else growth b

-- `acc.Trees[height] = h; acc.NumLeaves++`
abbrev pub insert_tree : Accumulator → ℕ → Hash256 → Accumulator
insert_tree acc height h = record {
  trees = update acc.trees height h;
  num_leaves = add_u64 acc.num_leaves 1;
}

module _ (crypto : Crypto) where
  -- ElementAccumulator.containsLeaf
  unfoldable pub contains_leaf : Accumulator → ElementLeaf → Bool
  contains_leaf acc l =
      has_tree_at_height acc (length l.merkle_proof)
      && bytes_eq (acc.trees (length l.merkle_proof)) (leaf_proof_root crypto l)

  -- ContainsUnspentOutputElement
  unfoldable pub contains_unspent : Accumulator → OutputElement → Bool
  contains_unspent acc sce = contains_leaf acc (output_leaf crypto sce false)

  -- ContainsSpentOutputElement
  unfoldable pub contains_spent : Accumulator → OutputElement → Bool
  contains_spent acc sce = contains_leaf acc (output_leaf crypto sce true)

  -- The loop over the heights, from `height`, where 64 - `fuel` heights are done: it ends at the
  -- first height with no tree.
  unfoldable pub walk : ℕ → ℕ → ℕ → Hash256 → Adding → Adding
  walk zero initial height h s = s
  walk (suc fuel) initial height h s = elim (has_tree_at_height s.acc height) [
    | false ↦ record s { acc = insert_tree s.acc height h }
    | true ↦
        let old_root = s.trees height in
        walk fuel initial (suc height) (node_hash crypto old_root h) (record s {
          batch = extend_proofs (2 ^ height) (2 ^ height) old_root h s.batch;
          growth = grow initial s.num_leaves height old_root h s.growth;
        })
  ]

  -- The body of the loop over the leaves.
  unfoldable pub add_leaf : ℕ → Adding → ElementLeaf → Adding
  add_leaf initial s l =
      let l' = placed l s.num_leaves in
      walk 64 initial 0 (leaf_hash crypto l') (record s { batch = l' ∷ s.batch })

  unfoldable pub add_all : ℕ → Adding → List ElementLeaf → Adding
  add_all initial s [] = s
  add_all initial s (l ∷ ls) = add_all initial (add_leaf initial s l) ls

  -- addLeaves: the new accumulator, the leaves with their indices and proofs, and the growth of
  -- each tree.
  unfoldable pub add_leaves :
      Accumulator → List ElementLeaf → Accumulator × List ElementLeaf × (ℕ → List Hash256)
  add_leaves acc leaves =
      let s = add_all acc.num_leaves (record { acc = acc; batch = []; growth = λ b. [] }) leaves in
      (s.acc, reverse s.batch, s.growth)
