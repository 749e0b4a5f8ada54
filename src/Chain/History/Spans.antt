-- ===== src/Chain/History/Spans.antt =====
-- History ends, and spans the chain from its tip to the lowest block of the store.
use sunyata.Common.{
  ℕ, zero, suc, ◌+◌, ◌/◌, ◌^◌, ◌≤◌, ◌<◌, ◌≡◌, inl, inr, refl, ap, ◌∙◌, arith, ltb, ltb→lt,
  ltb-false→le, ◌==◌, ==_iff, Bool, true, false, Bool-cases, List, [], ◌∷◌, All,
}
use sunyata.Common.Powers.{two-pow-suc}
use sunyata.Common.Outcome.{Outcome, ok}
use sunyata.Types.{ChainIndex}
use sunyata.Chain.{StoreError}
use sunyata.Chain.History.{search, is_found, hist_height, collect_history, history}

-- The search finds the first place from which on the test holds.
search-first :
    (fuel i j n : ℕ) (f : ℕ → Bool)
    → ((h : ℕ) → h < n → f h ≡ false)
    → ((h : ℕ) → n ≤ h → h < j → f h ≡ true)
    → i ≤ n
    → n ≤ j
    → j < i + 2 ^ fuel
    → search fuel f i j ≡ n
unfolding search
search-first zero i j n f below above lo hi short = omega (arith, lo, hi, short)
search-first (suc fuel) i j n f below above lo hi short =
    let p = two-pow-suc fuel in
    let h = (i + j) / 2 in
    elim (Bool-cases (ltb i j)) [
      | inr done ↦ let ge = ltb-false→le i j done in rw done (omega (arith, lo, hi, ge))
      | inl more ↦
          let lt = ltb→lt i j more in
          elim (Bool-cases (ltb h n)) [
            | inl low ↦
                let lt' = ltb→lt h n low in
                rw (more, below h lt')
                  (search-first fuel (h + 1) j n f below above (omega (arith, lt')) hi
                    (omega (arith, p, short)))
            | inr high ↦
                let ge = ltb-false→le h n high in
                rw (more, above h ge (omega (arith, lt)))
                  (search-first fuel i h n f below
                    (λ x le lt''. above x le (omega (arith, lt'', lt))) lo ge
                    (omega (arith, p, short, lt)))
          ]
    ]

module _ (best_index : ℕ → Outcome StoreError ChainIndex) where
  -- The list ends with a block of this height.
  abbrev pub EndsAt : ℕ → List ChainIndex → Type 0
  EndsAt base [] = ⊥
  EndsAt base (x ∷ []) = x.height ≡ base
  EndsAt base (x ∷ y ∷ ys) = EndsAt base (y ∷ ys)

  -- The index is the one that the store has at its height.
  abbrev pub OnBest : ChainIndex → Type 0
  OnBest index = best_index index.height ≡ ok index

  module _ (top base : ℕ) (small : top < 2 ^ 63) (le : base ≤ top)
      (missing : (h : ℕ) → h < base → is_found (best_index h) ≡ false)
      (stored : (h : ℕ)
        → base ≤ h
        → h ≤ top
        → (index : ChainIndex) × (best_index h ≡ ok index) × (index.height ≡ h)) where
    hist_height-range : (i : ℕ) → (base ≤ hist_height top base i) × (hist_height top base i ≤ top)
    unfolding hist_height
    hist_height-range i = (ground arith, ground arith)

    -- The last rounds reach the lowest block.
    hist_height-last : hist_height top base 71 ≡ base
    unfolding hist_height
    hist_height-last = ground arith

    -- What the loop returns from round `i` on.
    abbrev Collected : ℕ → ℕ → Type 0
    Collected fuel i =
        (index : ChainIndex) × (rest : List ChainIndex) × (collect_history best_index fuel top base
            i
          ≡ ok (index ∷ rest))
        × (index.height ≡ hist_height top base i)
        × EndsAt base (index ∷ rest)
        × All OnBest (index ∷ rest)

    stored_at :
        (i : ℕ)
        → (index : ChainIndex) × (best_index (hist_height top base i) ≡ ok index)
          × (index.height ≡ hist_height top base i)
    stored_at i = stored (hist_height top base i) (hist_height-range i).0 (hist_height-range i).1

    collect_history_last :
        (fuel i : ℕ) (index : ChainIndex)
        → best_index (hist_height top base i) ≡ ok index
        → index.height ≡ hist_height top base i
        → index.height ≡ base
        → Collected (suc fuel) i
    unfolding collect_history
    collect_history_last fuel i index found at e = (
      index,
      [],
      rw (found, (==_iff index.height base).1 e) refl,
      at,
      e,
      (ap best_index at ∙ found, tt),
    )

    collect_history_lem : (fuel i : ℕ) → suc fuel + i ≡ 72 → Collected (suc fuel) i
    unfolding collect_history
    collect_history_lem zero i rounds =
        let (index, found, at) = stored_at i in
        let last : i ≡ 71 = omega (arith, rounds) in
        collect_history_last zero i index found at
          (at ∙ ap (hist_height top base) last ∙ hist_height-last)
    collect_history_lem (suc fuel) i rounds =
        let (index, found, at) = stored_at i in
        elim (Bool-cases (index.height == base)) [
          | inl e ↦
              collect_history_last (suc fuel) i index found at ((==_iff index.height base).0 e)
          | inr ne ↦
              let (next, rest, tail, at', ends, best) =
                collect_history_lem fuel (suc i) (omega (arith, rounds)) in
              (
                index,
                next ∷ rest,
                rw (found, ne, tail) refl,
                at,
                ends,
                (ap best_index at ∙ found, best),
              )
        ]

    hist_height-first : hist_height top base 0 ≡ top
    unfolding hist_height
    hist_height-first = ground arith

    found_above : (h : ℕ) → base ≤ h → h < top → is_found (best_index h) ≡ true
    found_above h lo hi = let (index, found, at) = stored h lo (omega (arith, hi)) in rw found refl

    -- When the store has the best chain from the height `base` up to the tip, and nothing below,
    -- History ends and returns indices of the best chain, from the tip down to the one at `base`. The
    -- tip is lower than 2^63.
    pub history-spans :
        (index : ChainIndex) × (rest : List ChainIndex) × (history best_index top
          ≡ ok (index ∷ rest))
        × (index.height ≡ top)
        × EndsAt base (index ∷ rest)
        × All OnBest (index ∷ rest)
    unfolding history
    history-spans =
        let found_base : search 64 (λ height. is_found (best_index height)) 0 top ≡ base =
          search-first 64 0 top base (λ height. is_found (best_index height)) missing found_above
            (omega arith) le (omega (arith, small)) in
        let (index, rest, found, at, ends, best) = collect_history_lem 71 0 (omega arith) in
        (
          index,
          rest,
          ap (λ x. collect_history best_index 72 top x 0) found_base ∙ found,
          at ∙ hist_height-first,
          ends,
          best,
        )
