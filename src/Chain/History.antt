-- ===== src/Chain/History.antt =====
-- chain/manager.go: Manager.History, for the function `best_index` of a store.
pub mod Spans
use sunyata.Common.{
  ℕ, zero, suc, ◌+◌, ◌-◌, ◌/◌, ◌^◌, ltb, ◌==◌, Bool, true, false, List, [], ◌∷◌, if◌then◌else◌,
}
use sunyata.Common.Outcome.{Outcome, ok, err, panic, ◌>>=◌}
use sunyata.Types.{ChainIndex}
use sunyata.Chain.{StoreError}

-- sort.Search on `[i, j)`: the length of the range is halved in every round.
unfoldable pub search : ℕ → (ℕ → Bool) → ℕ → ℕ → ℕ
search zero f i j = i
search (suc fuel) f i j =
    let h = (i + j) / 2 in
    let left = search fuel f i h in
    let right = search fuel f (h + 1) j in if ltb i j then (if f h then left else right) else i

-- `err == nil`
abbrev pub is_found : Outcome StoreError ChainIndex → Bool
is_found (ok index) = true
is_found (err e) = false
is_found panic = false

-- `histHeight`, at the tip height `top`. A chain is lower than 2^63, so that nothing wraps around.
unfoldable pub hist_height : ℕ → ℕ → ℕ → ℕ
hist_height top base i =
    let offset = if ltb i 10 then i else 7 + 2 ^ (i - 8) in
    if ltb (top - base) offset then top - (top - base) else top - offset

module _ (best_index : ℕ → Outcome StoreError ChainIndex) where
  -- The loop, where `i` entries are there; the spacing doubles, so that 72 rounds are enough.
  unfoldable pub collect_history : ℕ → ℕ → ℕ → ℕ → Outcome StoreError (List ChainIndex)
  collect_history zero top base i = panic
  collect_history (suc fuel) top base i = best_index (hist_height top base i) >>= λ index.
      if index.height == base
      then ok (index ∷ [])
      else (collect_history fuel top base (suc i) >>= λ rest. ok (index ∷ rest))

  -- History
  unfoldable pub history : ℕ → Outcome StoreError (List ChainIndex)
  history top =
      let base = search 64 (λ height. is_found (best_index height)) 0 top in
      collect_history 72 top base 0
