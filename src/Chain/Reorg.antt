-- ===== src/Chain/Reorg.antt =====
-- reorgPath finds the way from one block to another by a common ancestor.
use mathlib.Core.List.{reverse}
use sunyata.Common.{
  ℕ, zero, suc, ◌+◌, ◌≤◌, ◌<◌, ◌≡◌, inl, inr, refl, sym, ap, ap₂, ◌∙◌, arith, true, false, List, [],
  ◌∷◌, ◌++◌, append_assoc, append-nil, subst, Bool-cases, ltb, ltb→lt, ltb-false→le, lt→ltb, ◌==◌,
  ==_iff, ==-refl, bytes_eq, bytes_eq_sound, bytes_eq_refl,
}
use sunyata.Common.Outcome.{Outcome, ok}
use sunyata.Types.{ChainIndex, BlockHeader, chain_index_eq}
use sunyata.Identity.{parent_index}
use sunyata.Chain.{StoreError, rewind, lower, meet, reorg_path}

pub chain_index_eq_sound : (a b : ChainIndex) → chain_index_eq a b ≡ true → a ≡ b
unfolding chain_index_eq
chain_index_eq_sound a b e = elim (Bool-cases (a.height == b.height)) [
  | inl same ↦
      let e' : bytes_eq a.id b.id ≡ true = rw same at e in
      ap₂ (λ (h : ℕ) i. record { height = h; id = i }) ((==_iff a.height b.height).0 same)
        (bytes_eq_sound a.id b.id e')
  | inr differ ↦ let e' : false ≡ true = rw differ at e in absurd (cc e')
]

pub chain_index_eq_refl : (a : ChainIndex) → chain_index_eq a a ≡ true
unfolding chain_index_eq
chain_index_eq_refl a = rw (==-refl a.height, bytes_eq_refl a.id) refl

module _ (header : ChainIndex → Outcome StoreError BlockHeader) where
  -- The blocks from `i` down to `c`, without `c`: each one is the parent of the one before.
  abbrev pub Down : ChainIndex → List ChainIndex → ChainIndex → Type 0
  Down i [] c = i ≡ c
  Down i (x ∷ xs) c = (x ≡ i) × (h : BlockHeader) × (header i ≡ ok h) × Down (parent_index h) xs c

  -- `i` is a block of height `n` whose chain of parents in the store leads to the block `g`.
  abbrev pub Rooted : ChainIndex → ℕ → ChainIndex → Type 0
  Rooted g zero i = (i.height ≡ 0) × (i ≡ g)
  Rooted g (suc n) i =
      (i.height ≡ suc n) × (h : BlockHeader) × (header i ≡ ok h) × Rooted g n (parent_index h)

  Rooted-height : (g : ChainIndex) (n : ℕ) (i : ChainIndex) → Rooted g n i → i.height ≡ n
  Rooted-height g zero i r = r.0
  Rooted-height g (suc n) i r = r.0

  lower-stop :
      (fuel m : ℕ) (a : ChainIndex) (trail : List ChainIndex)
      → a.height ≤ m
      → lower header fuel m a trail ≡ ok (a, trail)
  unfolding lower
  lower-stop zero m a trail le = let done : ltb m a.height ≡ false = ground arith in rw done refl
  lower-stop (suc fuel) m a trail le =
      let done : ltb m a.height ≡ false = ground arith in rw done refl

  lower-step :
      (fuel m : ℕ) (a : ChainIndex) (trail : List ChainIndex) (h : BlockHeader)
      → m < a.height
      → header a ≡ ok h
      → lower header (suc fuel) m a trail ≡ lower header fuel m (parent_index h) (trail ++ a ∷ [])
  unfolding lower rewind
  lower-step fuel m a trail h lt found =
      let more : ltb m a.height ≡ true = lt→ltb m a.height lt in rw (more, found) refl

  abbrev Lowered : ChainIndex → ℕ → ℕ → ChainIndex → List ChainIndex → Type 0
  Lowered g fuel m a trail =
      (a' : ChainIndex) × (path : List ChainIndex) × (lower header fuel m a trail
        ≡ ok (a', trail ++ path))
      × Down a path a'
      × Rooted g m a'

  lower-here :
      (g : ChainIndex) (fuel m n : ℕ) (a : ChainIndex) (trail : List ChainIndex)
      → n ≤ m
      → m ≤ n
      → Rooted g n a
      → Lowered g fuel m a trail
  lower-here g fuel m n a trail ge le r =
      let same : n ≡ m = omega (arith, le, ge) in
      (
        a,
        [],
        lower-stop fuel m a trail (omega (arith, Rooted-height g n a r, same))
            ∙ ap (λ xs. ok (a, xs)) (sym (append-nil trail)),
        refl,
        subst (λ k. Rooted g k a) same r,
      )

  lower_lem :
      (g : ChainIndex) (fuel m n : ℕ) (a : ChainIndex) (trail : List ChainIndex)
      → n ≤ fuel + m
      → m ≤ n
      → Rooted g n a
      → Lowered g fuel m a trail
  lower_lem g zero m n a trail enough le r =
      lower-here g zero m n a trail (omega (arith, enough)) le r
  lower_lem g (suc fuel) m zero a trail enough le r =
      lower-here g (suc fuel) m zero a trail (omega arith) le r
  lower_lem g (suc fuel) m (suc n) a trail enough le (height, h, found, r) =
      elim (Bool-cases (ltb m (suc n))) [
        | inr ge ↦
            lower-here g (suc fuel) m (suc n) a trail (ltb-false→le m (suc n) ge) le
              (height, h, found, r)
        | inl lt ↦
            let more = ltb→lt m (suc n) lt in
            let (a', path, low, down, rest) =
              lower_lem g fuel m n (parent_index h) (trail ++ a ∷ []) (omega (arith, enough))
                (omega (arith, more)) r in
            (
              a',
              a ∷ path,
              lower-step fuel m a trail h (omega (arith, height, more)) found
                  ∙ low
                  ∙ ap (λ xs. ok (a', xs)) (append_assoc trail (a ∷ []) path),
              (refl, h, found, down),
              rest,
            )
      ]

  -- Two blocks of the same height meet at the latest at the root.
  meet_lem :
      (g : ChainIndex) (n : ℕ) (a b : ChainIndex) (revert apply : List ChainIndex)
      → Rooted g n a
      → Rooted g n b
      → (c : ChainIndex) × (down : List ChainIndex) × (up : List ChainIndex) × (meet header n a b
            revert apply
          ≡ ok (revert ++ down, apply ++ up))
        × Down a down c
        × Down b up c
  unfolding meet rewind
  meet_lem g zero a b revert apply ra rb =
      let same : a ≡ b = ra.1 ∙ sym rb.1 in
      (
        b,
        [],
        [],
        rw (same, chain_index_eq_refl b, append-nil revert, append-nil apply) refl,
        same,
        refl,
      )
  meet_lem g (suc n) a b revert apply (height, h, found, ra) (height', h', found', rb) =
      elim (Bool-cases (chain_index_eq a b)) [
        | inl e ↦
            let same = chain_index_eq_sound a b e in
            (b, [], [], rw (e, append-nil revert, append-nil apply) refl, same, refl)
        | inr e ↦
            let (c, down, up, met, da, db) =
              meet_lem g n (parent_index h) (parent_index h') (revert ++ a ∷ []) (apply ++ b ∷ [])
                ra rb in
            (
              c,
              a ∷ down,
              b ∷ up,
              rw (e, found, found')
                  (met
                    ∙ ap₂ (λ xs ys. ok (xs, ys)) (append_assoc revert (a ∷ []) down)
                        (append_assoc apply (b ∷ []) up)),
              (refl, h, found, da),
              (refl, h', found', db),
            )
      ]

  Down-append :
      (i c d : ChainIndex) (xs ys : List ChainIndex)
      → Down i xs c
      → Down c ys d
      → Down i (xs ++ ys) d
  Down-append i c d [] ys e q = subst (λ x. Down x ys d) (sym e) q
  Down-append i c d (x ∷ xs) ys (e, h, found, rest) q =
      (e, h, found, Down-append (parent_index h) c d xs ys rest q)

  reorg_path-steps :
      (a b a' b' : ChainIndex) (xs ys revert apply : List ChainIndex)
      → lower header a.height b.height a [] ≡ ok (a', xs)
      → lower header b.height a'.height b [] ≡ ok (b', ys)
      → meet header a'.height a' b' xs ys ≡ ok (revert, apply)
      → reorg_path header a b ≡ ok (revert, reverse apply)
  unfolding reorg_path
  reorg_path-steps a b a' b' xs ys revert apply e e' e'' = rw (e, e', e'') refl

  -- reorgPath ends and returns the way from `a` to `b`, for two blocks whose parents in the store
  -- lead to one genesis block: the blocks to revert are those from `a` down to a common ancestor,
  -- and the blocks to apply, from the last to the first, those from `b` down to it.
  pub reorg_path-connects :
      (g a b : ChainIndex) (n m : ℕ)
      → Rooted g n a
      → Rooted g m b
      → (c : ChainIndex) × (revert : List ChainIndex) × (apply : List ChainIndex) × (reorg_path
            header a b
          ≡ ok (revert, reverse apply))
        × Down a revert c
        × Down b apply c
  reorg_path-connects g a b n m ra rb = elim (Bool-cases (ltb n m)) [
    | inr ge ↦
        let le = ltb-false→le n m ge in
        let (a', down, low, da, ra') = lower_lem g n m n a [] (omega arith) le ra in
        let (c, down', up, met, da', db) = meet_lem g m a' b down [] ra' rb in
        (
          c,
          down ++ down',
          up,
          reorg_path-steps a b a' b down [] (down ++ down') up
              (ap₂ (λ x y. lower header x y a []) (Rooted-height g n a ra) (Rooted-height g m b rb)
                ∙ low)
              (lower-stop b.height a'.height b []
                (omega (arith, Rooted-height g m a' ra', Rooted-height g m b rb)))
              (ap (λ x. meet header x a' b down []) (Rooted-height g m a' ra') ∙ met),
          Down-append a a' c down down' da da',
          db,
        )
    | inl lt ↦
        let le = ltb→lt n m lt in
        let (b', up, low, db, rb') = lower_lem g m n m b [] (omega arith) (omega (arith, le)) rb in
        let (c, down, up', met, da, db') = meet_lem g n a b' [] up ra rb' in
        (
          c,
          down,
          up ++ up',
          reorg_path-steps a b a b' [] up down (up ++ up')
              (lower-stop a.height b.height a []
                (omega (arith, le, Rooted-height g n a ra, Rooted-height g m b rb)))
              (ap₂ (λ x y. lower header x y b []) (Rooted-height g m b rb) (Rooted-height g n a ra)
                ∙ low)
              (ap (λ x. meet header x a b' [] up) (Rooted-height g n a ra) ∙ met),
          da,
          Down-append b b' c up up' db db',
        )
  ]
