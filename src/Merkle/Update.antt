-- ===== src/Merkle/Update.antt =====
-- merkle/accumulator.go: updateLeaves and the update of proofs; splitLeaves of merkle/multiproof.go.
-- A range `[i, j)` of leaf indices is given by its start and its height, the logarithm of `j - i`,
-- which is always a power of two. `none` is a panic.
pub mod Recompute
pub mod Tree
pub mod Subtree
pub mod Groups
pub mod Trees
pub mod Places
pub mod Overwrite
use sunyata.Common.{
  ◌≡◌, refl, ℕ, zero, suc, ◌+◌, ◌*◌, ◌/◌, ◌%◌, ◌^◌, Bool, true, false, ◌||◌, ◌&&◌, Option, none,
  some, List, [], ◌∷◌, ◌++◌, length, get_elem?, set_elem, ltb, ◌==◌, if◌then◌else◌, map,
}
use sunyata.Types.{Crypto, Hash256}
use sunyata.Merkle.Bits.{clear_bits}
use sunyata.Merkle.Hash.{ElementLeaf, leaf_hash, node_hash}
use sunyata.Merkle.Accumulator.{Accumulator, update}

infixl 5 ◌>>=◌
abbrev pub ◌>>=◌ {ℓ κ} : {A : Type ℓ} {B : Type κ} → Option A → (A → Option B) → Option B
none >>= f = none
some a >>= f = f a

-- A chain of calls that returns has made every call.
pub >>=-eq-some {ℓ κ} :
    {A : Type ℓ} {B : Type κ} (call : Option A) (rest : A → Option B) {result : B}
    → (call >>= rest) ≡ some result
    → (value : A) × (call ≡ some value) × (rest value ≡ some result)
>>=-eq-some none rest ended = cc
>>=-eq-some (some value) rest ended = (value, refl, ended)

-- splitLeaves: the leaves are sorted, so that the search finds the first index from `mid` on.
unfoldable pub split_leaves : List ElementLeaf → ℕ → List ElementLeaf × List ElementLeaf
split_leaves [] mid = ([], [])
split_leaves (l ∷ ls) mid =
    let (left, right) = split_leaves ls mid in
    if ltb l.leaf_index mid then (l ∷ left, right) else ([], l ∷ ls)

-- `l` with another proof.
abbrev pub with_proof : ElementLeaf → List Hash256 → ElementLeaf
with_proof l proof = record l { state_element = record l.state_element { merkle_proof = proof } }

-- `for i := range ls { ls[i].MerkleProof[height] = h }`; the proofs are longer than `height`.
unfoldable pub set_proofs : ℕ → Hash256 → List ElementLeaf → List ElementLeaf
set_proofs height h [] = []
set_proofs height h (l ∷ ls) =
    with_proof l (set_elem l.merkle_proof height h) ∷ set_proofs height h ls

-- `ls[0].MerkleProof[height]`
unfoldable pub first_proof : ℕ → List ElementLeaf → Option Hash256
first_proof height [] = none
first_proof height (l ∷ ls) = get_elem? l.merkle_proof height

-- One half of a range: its root is in the proofs of the other half when no leaf of it is updated;
-- otherwise it is computed anew, and put into these proofs.
unfoldable pub half :
    ℕ
    → (List ElementLeaf → Option (Hash256 × List ElementLeaf))
    → List ElementLeaf
    → List ElementLeaf
    → Option (Hash256 × List ElementLeaf × List ElementLeaf)
half height rec [] other = first_proof height other >>= λ root. some (root, [], other)
half height rec (l ∷ ls) other = rec (l ∷ ls) >>= λ r. some (r.0, r.1, set_proofs height r.0 other)

-- `(i + j) / 2` on uint64.
abbrev pub middle : ℕ → ℕ → ℕ
middle height i = (i + (i + 2 ^ suc height)) % 2 ^ 64 / 2

-- The order of sort.Slice: by the length of the proof, then by the index.
abbrev pub leaf_before : ElementLeaf → ElementLeaf → Bool
leaf_before l m =
    if length l.merkle_proof == length m.merkle_proof
    then ltb l.leaf_index m.leaf_index
    else ltb (length l.merkle_proof) (length m.merkle_proof)

unfoldable pub insert_leaf : ElementLeaf → List ElementLeaf → List ElementLeaf
insert_leaf l [] = l ∷ []
insert_leaf l (m ∷ ms) = if leaf_before l m then l ∷ m ∷ ms else m ∷ insert_leaf l ms

-- sort.Slice
unfoldable pub sort_leaves : List ElementLeaf → List ElementLeaf
sort_leaves [] = []
sort_leaves (l ∷ ls) = insert_leaf l (sort_leaves ls)

-- `i` runs as long as the proofs have length `n`: `leaves[:i]` and `leaves[i:]`.
unfoldable pub same_length : ℕ → List ElementLeaf → List ElementLeaf × List ElementLeaf
same_length n [] = ([], [])
same_length n (l ∷ ls) =
    let (run, rest) = same_length n ls in
    if length l.merkle_proof == n then (l ∷ run, rest) else ([], l ∷ ls)

-- The loop that groups the leaves by tree: each round removes a leaf at least, so that as many
-- rounds as there are leaves are enough.
unfoldable pub group_trees :
    ℕ → List ElementLeaf → (ℕ → List ElementLeaf) → Option (ℕ → List ElementLeaf)
group_trees fuel [] trees = some trees
group_trees zero (l ∷ ls) trees = none
group_trees (suc fuel) (l ∷ ls) trees =
    let n = length l.merkle_proof in
    let (run, rest) = same_length n (l ∷ ls) in
    let next = group_trees fuel rest (update trees n run) in if ltb n 64 then next else none

module _ (crypto : Crypto) where
  -- `recompute` of updateLeaves.
  unfoldable pub recompute : ℕ → ℕ → List ElementLeaf → Option (Hash256 × List ElementLeaf)
  recompute zero i [] = none
  recompute zero i (l ∷ []) = some (leaf_hash crypto l, l ∷ [])
  recompute zero i (l ∷ l' ∷ ls) = none
  recompute (suc height) i ls =
      let mid = middle height i in
      let (left, right) = split_leaves ls mid in
      half height (recompute height i) left right >>= λ (left_root, left', right').
      half height (recompute height mid) right' left' >>= λ (right_root, right'', left'').
      some (node_hash crypto left_root right_root, left'' ++ right'')

  -- The body of the loop over the trees.
  unfoldable pub update_tree :
      ℕ → Accumulator × (ℕ → List ElementLeaf) → Option (Accumulator × (ℕ → List ElementLeaf))
  update_tree height (acc, trees) = elim (trees height) [
    | [] ↦ some (acc, trees)
    | l ∷ ls ↦
        recompute height (clear_bits acc.num_leaves (height + 1)) (l ∷ ls) >>= λ (root, leaves).
        some (record acc { trees = update acc.trees height root }, update trees height leaves)
  ]

  -- The loop over the trees, for the heights below `n`.
  unfoldable pub update_trees :
      ℕ → Accumulator × (ℕ → List ElementLeaf) → Option (Accumulator × (ℕ → List ElementLeaf))
  update_trees zero s = some s
  update_trees (suc n) s = update_trees n s >>= update_tree n

  -- updateLeaves
  unfoldable pub update_leaves :
      Accumulator → List ElementLeaf → Option (Accumulator × (ℕ → List ElementLeaf))
  update_leaves acc leaves = group_trees (length leaves) (sort_leaves leaves) (λ h. []) >>= λ trees.
      update_trees 64 (acc, trees)
