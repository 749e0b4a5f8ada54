-- ===== src/Consensus/Header/Window.antt =====
-- PrevTimestamps as the last 11 timestamps of the chain.
use mathlib.Core.Option.{some}
use sunyata.Common.{
  ℕ, zero, suc, ◌+◌, ◌-◌, ◌^◌, ◌%◌, ◌≤◌, ◌<◌, ◌≡◌, ◌⊎◌, refl, sym, ap, ◌∙◌, inl, inr, arith, List,
  [], ◌∷◌, ◌++◌, take, drop, length, length-append, length-take, length-drop, take-all, drop-append,
  drop-drop, Bool-cases, true, false, ltb, lt→ltb, ◌==◌, subst,
}
use sunyata.Work.{Work, IsWork}
use sunyata.Work
use sunyata.Identity.{header_index}
use sunyata.Consensus.Header.Difficulty.{adjust_difficulty-total}
use sunyata.Types.{Crypto, Time, BlockHeader}
use sunyata.Consensus.State.{State, num_timestamps, difficulty_adjustment_interval}
use sunyata.Consensus.Header.{set_time, push_timestamp, retarget, apply_header, genesis_state}

-- The timestamps that count.
abbrev pub window : State → List Time
window s = take (num_timestamps s) s.prev_timestamps

-- The last 11 entries of a list.
abbrev pub recent : List Time → List Time
recent ts = drop (length ts - 11) ts

length-set_time : (i : ℕ) (t : Time) (ts : List Time) → length (set_time i t ts) ≡ length ts
unfolding set_time
length-set_time i t [] = refl
length-set_time zero t (u ∷ us) = refl
length-set_time (suc i) t (u ∷ us) = ap suc (length-set_time i t us)

take-set_time :
    (i : ℕ) (t : Time) (ts : List Time)
    → i < length ts
    → take (suc i) (set_time i t ts) ≡ take i ts ++ t ∷ []
unfolding set_time
take-set_time i t [] lt = absurd (omega (arith, lt))
take-set_time zero t (u ∷ us) lt = refl
take-set_time (suc i) t (u ∷ us) lt = ap (λ x. u ∷ x) (take-set_time i t us (omega arith))

num_timestamps-cases :
    (s : State)
    → s.index.height + 1 < 2 ^ 64
    → ((num_timestamps s ≡ s.index.height + 1) × (s.index.height + 1 < 11))
      ⊎ ((num_timestamps s ≡ 11) × (11 ≤ s.index.height + 1))
unfolding num_timestamps
num_timestamps-cases s small = elim (Bool-cases (ltb (s.index.height + 1) 11)) [
  | inl e ↦ inl (ground arith, ground arith)
  | inr e ↦ inr (ground arith, ground arith)
]

num_timestamps-next :
    (s s' : State)
    → s'.index.height ≡ s.index.height + 1
    → s.index.height + 2 < 2 ^ 64
    → ((num_timestamps s' ≡ s.index.height + 2) × (s.index.height + 2 < 11))
      ⊎ ((num_timestamps s' ≡ 11) × (11 ≤ s.index.height + 2))
num_timestamps-next s s' height small =
    elim (num_timestamps-cases s' (omega (arith, height, small))) [
      | inl (e, few) ↦ inl (omega (arith, e, height), omega (arith, few, height))
      | inr (e, many) ↦ inr (e, omega (arith, many, height))
    ]

length-push_timestamp :
    (s : State) (t : Time) → length s.prev_timestamps ≡ 11 → length (push_timestamp s t) ≡ 11
unfolding push_timestamp
length-push_timestamp s t full =
    elim (Bool-cases (ltb (num_timestamps s) (length s.prev_timestamps))) [
      | inl e ↦ rw e (length-set_time (num_timestamps s) t s.prev_timestamps ∙ full)
      | inr e ↦ rw e (
          length-append (drop 1 s.prev_timestamps) (t ∷ [])
          ∙ omega (arith, length-drop 1 s.prev_timestamps, full))
    ]

filling-recent :
    (k : ℕ) (t : Time) (ts : List Time)
    → length ts ≡ 11
    → k < 11
    → take (suc k) (set_time k t ts) ≡ recent (take k ts ++ t ∷ [])
filling-recent k t ts full few =
    take-set_time k t ts (omega (arith, full)) ∙ sym (ap (λ n. drop n (take k ts ++ t ∷ [])) short)
  where
    short : length (take k ts ++ t ∷ []) - 11 ≡ 0
    short = omega (
      arith,
      length-append (take k ts) (t ∷ []),
      length-take k ts (omega (arith, full, few)),
      few,
    )

full-recent :
    (t : Time) (ts : List Time)
    → length ts ≡ 11
    → take 11 (drop 1 ts ++ t ∷ []) ≡ recent (take 11 ts ++ t ∷ [])
full-recent t ts full =
    take-all 11 (drop 1 ts ++ t ∷ [])
      (omega (arith, length-append (drop 1 ts) (t ∷ []), length-drop 1 ts, full))
    ∙ sym (drop-append 1 ts (t ∷ []) (omega (arith, full)))
    ∙ sym (
        ap recent (ap (λ us. us ++ t ∷ []) (take-all 11 ts (omega (arith, full))))
        ∙ ap (λ n. drop n (ts ++ t ∷ [])) long)
  where
    long : length (ts ++ t ∷ []) - 11 ≡ 1
    long = omega (arith, length-append ts (t ∷ []), full)

-- The array after a header, in front of the next number of timestamps.
push_timestamp-recent :
    (s : State) (t : Time) (n : ℕ)
    → length s.prev_timestamps ≡ 11
    → s.index.height + 1 < 2 ^ 64
    → ((n ≡ s.index.height + 2) × (s.index.height + 2 < 11))
      ⊎ ((n ≡ 11) × (11 ≤ s.index.height + 2))
    → take n (push_timestamp s t) ≡ recent (window s ++ t ∷ [])
unfolding push_timestamp
push_timestamp-recent s t n full small count = elim (num_timestamps-cases s small) [
  | inl (e, few) ↦
      let less : ltb (num_timestamps s) (length s.prev_timestamps) ≡ true =
        lt→ltb _ _ (omega (arith, e, few, full)) in
      let next : n ≡ suc (num_timestamps s) = omega (arith, e, few, count) in
      rw (less, next)
        (filling-recent (num_timestamps s) t s.prev_timestamps full (omega (arith, e, few)))
  | inr (e, many) ↦
      let all : n ≡ 11 = omega (arith, many, count) in
      rw (e, full, all) (full-recent t s.prev_timestamps full)
]

-- Only the last 11 matter for what follows.
recent-append : (ts : List Time) (t : Time) → recent (recent ts ++ t ∷ []) ≡ recent (ts ++ t ∷ [])
recent-append ts t =
    ap recent (sym (drop-append k ts (t ∷ []) (omega arith)))
    ∙ drop-drop (length (drop k (ts ++ t ∷ [])) - 11) k (ts ++ t ∷ [])
    ∙ ap (λ n. drop n (ts ++ t ∷ [])) count
  where
    k : ℕ
    k = length ts - 11

    count : k + (length (drop k (ts ++ t ∷ [])) - 11) ≡ length (ts ++ t ∷ []) - 11
    count = omega (arith, length-drop k (ts ++ t ∷ []), length-append ts (t ∷ []))

-- adjustDifficulty never divides by zero.
retarget-total :
    (s : State) (h : BlockHeader)
    → IsWork s.difficulty
    → (d : Work) × (last : Time) × (retarget s h ≡ some (d, last)) × IsWork d
unfolding retarget
retarget-total s h fits = elim (Bool-cases (h.height % difficulty_adjustment_interval == 0)) [
  | inr e ↦ (s.difficulty, s.last_adjust, rw e refl, fits)
  | inl e ↦
      let (d, found, word) = adjust_difficulty-total s h in
      (d, h.timestamp, rw (e, found) refl, word)
]

-- The array is full, the height counts the headers, and the entries in use are the latest
-- timestamps; the difficulty is a number of 256 bits.
pub record IsKept (s : State) (ts : List Time) : Type 0 where
  pub full : length s.prev_timestamps ≡ 11
  pub count : s.index.height + 1 ≡ length ts
  pub latest : window s ≡ recent ts
  pub work : IsWork s.difficulty

module _ (crypto : Crypto) where
  -- The states that headers lead to, with the timestamps of all the headers.
  pub data Chain : State → List Time → Type 0 where
    genesis :
        (difficulty : Work) (h : BlockHeader) {s : State}
        → IsWork difficulty
        → h.height ≡ 0
        → apply_header crypto (genesis_state difficulty h.timestamp) h ≡ some s
        → Chain s (h.timestamp ∷ [])
    next :
        {s s' : State} {ts : List Time} (h : BlockHeader)
        → Chain s ts
        → h.height ≡ s.index.height + 1
        → apply_header crypto s h ≡ some s'
        → Chain s' (ts ++ h.timestamp ∷ [])

  -- Applying a header with the next height returns (the difficulty adjustment never divides by
  -- zero), and keeps what `IsKept` says of the array of timestamps, with the header's timestamp
  -- added.
  pub apply_header-IsKept :
      (s : State) (ts : List Time) (h : BlockHeader)
      → IsKept s ts
      → h.height ≡ s.index.height + 1
      → s.index.height + 2 < 2 ^ 64
      → (s' : State) × (apply_header crypto s h ≡ some s') × IsKept s' (ts ++ h.timestamp ∷ [])
  unfolding apply_header header_index
  apply_header-IsKept s ts h kept height small =
      let (d, last, found, word) = retarget-total s h kept.work in
      let later : (h.height == 0) ≡ false = ground (arith, height) in
      let s' : State = record s {
        total_work = Work.add s.total_work s.difficulty;
        difficulty = d;
        last_adjust = last;
        prev_timestamps = push_timestamp s h.timestamp;
        index = header_index crypto h;
      } in
      (
        s',
        rw (later, found) refl,
        record {
          full = length-push_timestamp s h.timestamp kept.full;
          count = omega (arith, height, kept.count, length-append ts (h.timestamp ∷ []));
          latest =
              push_timestamp-recent s h.timestamp (num_timestamps s') kept.full (omega arith)
                (num_timestamps-next s s' height (omega arith))
              ∙ ap (λ w. recent (w ++ h.timestamp ∷ [])) kept.latest
              ∙ recent-append ts h.timestamp;
          work = word;
        },
      )

  genesis-IsKept :
      (difficulty : Work) (h : BlockHeader) (s : State)
      → IsWork difficulty
      → h.height ≡ 0
      → apply_header crypto (genesis_state difficulty h.timestamp) h ≡ some s
      → IsKept s (h.timestamp ∷ [])
  unfolding apply_header genesis_state header_index set_time num_timestamps
  genesis-IsKept difficulty h s fits start e =
      let first : (h.height == 0) ≡ true = ground (arith, start) in
      let s0 = genesis_state difficulty h.timestamp in
      let s1 : State = record s0 {
        prev_timestamps = set_time 0 h.timestamp s0.prev_timestamps;
        index = header_index crypto h;
      } in
      let same : s1 ≡ s = cc (rw first at e) in
      let kept : IsKept s1 (h.timestamp ∷ []) = record {
        full = refl;
        count = omega (arith, start);
        latest = rw start refl;
        work = fits;
      } in
      subst (λ x. IsKept x (h.timestamp ∷ [])) same kept

  -- In a state that a chain of headers leads to, from the genesis block on, the array of previous
  -- timestamps has 11 entries, of which those in use are the timestamps of the last 11 headers (or
  -- of all, when there are fewer), in order. The chain must be shorter than 2^64.
  pub Chain-IsKept : (s : State) (ts : List Time) → Chain s ts → length ts < 2 ^ 64 → IsKept s ts
  Chain-IsKept s ts (Chain.genesis difficulty h fits start e) small =
      genesis-IsKept difficulty h s fits start e
  Chain-IsKept s' _ (Chain.next {s = s} {ts = ts} h c height e) small =
      let before : length ts + 1 < 2 ^ 64 =
        omega (arith, length-append ts (h.timestamp ∷ []), small) in
      let kept = Chain-IsKept s ts c (omega (arith, before)) in
      let (s'', e', kept') =
        apply_header-IsKept s ts h kept height (omega (arith, before, kept.count)) in
      let same : s'' ≡ s' = cc in subst (λ x. IsKept x (ts ++ h.timestamp ∷ [])) same kept'
