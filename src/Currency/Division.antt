-- ===== src/Currency/Division.antt =====
-- Division of currency.go: quoRem64 in two Div64 steps, and quoRem with its trial quotient.
use native.Mathlib.Nat.{mul-le-mul_right, mul-le-mul_left, mod-eq_of_lt, mod-lt, div-add-mod'}
use sunyata.Common.{
  ℕ, zero, suc, ◌+◌, ◌-◌, ◌*◌, ◌/◌, ◌%◌, ◌^◌, ◌<◌, ◌≤◌, ◌≡◌, refl, sym, ap, ◌∙◌, ◌⊎◌, inl, inr,
  none, some, arith, ltb, ◌==◌, Bool-cases,
}
use sunyata.Common.Word.{div64, leading_zeros64}
use sunyata.Common.Powers.{leading_zeros64_lem, two-pow-add, two-pow-suc, two-pow-pos}
use sunyata.Currency.Arithmetic.{sub_exact, mul_64_exact, units-lt}
use sunyata.Currency.{
  Currency, IsCurrency, units, new_currency, new_currency64, quo_rem_low, quo_rem64, quo_rem,
  shifted, halved, adjust, correct, next_quotient, decrement, quo_rem_wide, cmp, less, same,
  greater,
}

-- One Div64 step: the quotient fits a word, since the high word is below the divisor.
pub div64_lem :
    (hi lo y : ℕ)
    → hi < y
    → lo < 2 ^ 64
    → (q : ℕ) × (r : ℕ) × (div64 hi lo y ≡ some (q, r))
      × (q * y + r ≡ hi * 2 ^ 64 + lo)
      × (r < y)
      × (q < 2 ^ 64)
div64_lem hi lo y h fits = (
  (hi * 2 ^ 64 + lo) / y,
  (hi * 2 ^ 64 + lo) % y,
  ground arith,
  grind arith,
  omega arith,
  grind arith,
)

quo_rem_low_lem :
    (q_hi r lo v : ℕ)
    → r < v
    → lo < 2 ^ 64
    → (q : Currency) × (m : ℕ) × (quo_rem_low q_hi r lo v ≡ some (q, m))
      × (q.lo * v + m ≡ r * 2 ^ 64 + lo)
      × (m < v)
      × (q.lo < 2 ^ 64)
      × (q.hi ≡ q_hi)
unfolding quo_rem_low
quo_rem_low_lem q_hi r lo v h fits =
    let (q, m, e, exact, small, word) = div64_lem r lo v h fits in
    (new_currency q q_hi, m, rw (e, quo_rem_low), exact, small, word, refl)

-- A divisor of one word: the quotient and the remainder are exact, and only zero panics.
pub quo_rem64_exact :
    (c : Currency) (v : ℕ)
    → IsCurrency c
    → ((q : Currency) × (r : ℕ) × (quo_rem64 c v ≡ some (q, r))
        × (units q * v + r ≡ units c)
        × (r < v)
        × IsCurrency q)
      ⊎ ((quo_rem64 c v ≡ none) × (v ≡ 0))
unfolding quo_rem64
quo_rem64_exact c v hc = elim (Bool-cases (v == 0)) [
  | inl zero_divisor ↦ inr (ground arith, ground arith)
  | inr nonzero ↦ inl (elim (Bool-cases (ltb c.hi v)) [
    | inl small ↦
        let (q, m, e, exact, below, word, hi) =
          quo_rem_low_lem 0 c.hi c.lo v (ground arith) hc.lo_fits in
        (
          q,
          m,
          rw small e,
          ground arith,
          below,
          record { lo_fits = word; hi_fits = rw hi (omega arith) },
        )
    | inr large ↦
        let (q_hi, r, d, exact_hi, below_hi, word_hi) =
          div64_lem 0 c.hi v (ground arith) hc.hi_fits in
        let (q, m, e, exact, below, word, hi) = quo_rem_low_lem q_hi r c.lo v below_hi hc.lo_fits in
        (
          q,
          m,
          rw (large, d) e,
          rw hi (omega arith),
          below,
          record { lo_fits = word; hi_fits = rw hi word_hi },
        )
  ])
]

-- The trial quotient of a divisor `v` between `d * p` and `d * p + p` is at most one too large.
trial_quotient :
    (c v d p t : ℕ)
    → (p ≡ 2) ⊎ (4 ≤ p)
    → 2 ^ 63 ≤ d
    → d * p ≤ v
    → v < d * p + p
    → t * (d * p) ≤ c
    → c < (t + 1) * (d * p)
    → c < 2 ^ 128
    → (t * v ≤ c + v) × (c < (t + 1) * v)
trial_quotient c v d p t size top below above low high fits =
    (omega (arith, over, excess size), omega (arith, mul-le-mul_left (t + 1) below))
  where
    over : t * v + t ≤ t * (d * p) + t * p
    over = omega (arith, mul-le-mul_left t above)

    bound : t * p < 2 ^ 65
    bound = omega (arith, mul-le-mul_right (t * p) top)

    wide : 2 ^ 63 * p ≤ v
    wide = omega (arith, mul-le-mul_right p top)

    excess : (p ≡ 2) ⊎ (4 ≤ p) → t * p ≤ v + t
    excess (inl e) = omega (arith, bound, wide, ap (λ (k : ℕ). t * k) e)
    excess (inr h) = omega (arith, bound, wide)

-- The shifted divisor: its high word has the top bit, and is the divisor without its low bits.
shifted_lem :
    (v : Currency) (n p : ℕ)
    → IsCurrency v
    → 2 ^ n * p ≡ 2 ^ 64
    → p ≡ 2 ^ (64 - n)
    → 2 ^ 63 ≤ v.hi * 2 ^ n
    → v.hi * 2 ^ n < 2 ^ 64
    → let d = (shifted v n).hi in (2 ^ 63 ≤ d) × (d * p ≤ units v) × (units v < d * p + p)
unfolding shifted
shifted_lem v n p hv whole size top fits =
    rw (← size, mod-eq_of_lt fits)
      (omega arith, omega (arith, field, low.0), omega (arith, field, low.0, low.1))
  where
    field : v.hi * 2 ^ n * p ≡ v.hi * 2 ^ 64
    field = omega (arith, ap (λ (t : ℕ). v.hi * t) whole)

    positive : 0 < p
    positive = rw size (two-pow-pos (64 - n))

    low : (v.lo / p * p + v.lo % p ≡ v.lo) × (v.lo % p < p)
    low = (div-add-mod' v.lo p, mod-lt v.lo positive)

-- The trial quotient as the source computes it, by one division and one shift.
trial_bounds :
    (u d k : ℕ) → 0 < d → 0 < k → (u / d / k * (d * k) ≤ u) × (u < (u / d / k + 1) * (d * k))
trial_bounds u d k pos pos' = (
  omega (arith, div-add-mod' u d, mul-le-mul_right d lower),
  omega (arith, div-add-mod' u d, mod-lt u pos, mul-le-mul_right d upper),
)
  where
    lower : u / d / k * k ≤ u / d
    lower = omega (arith, div-add-mod' (u / d) k)

    upper : u / d + 1 ≤ (u / d / k + 1) * k
    upper = omega (arith, div-add-mod' (u / d) k, mod-lt (u / d) pos')

cmp_split :
    (r v : Currency)
    → IsCurrency r
    → IsCurrency v
    → ((cmp r v ≡ less) × (units r < units v))
      ⊎ (((cmp r v ≡ same) ⊎ (cmp r v ≡ greater)) × (units v ≤ units r))
unfolding cmp
cmp_split r v hr hv = elim (Bool-cases (ltb (units r) (units v))) [
  | inl h ↦ inl (ground arith, ground arith)
  | inr h ↦ inr (ground arith, ground arith)
]

next_quotient_lem :
    (v r : Currency) (tq : ℕ)
    → IsCurrency v
    → IsCurrency r
    → tq + 1 < 2 ^ 64
    → units v ≤ units r
    → (m : Currency) × (next_quotient v (new_currency64 tq) r ≡ some (new_currency64 (tq + 1), m))
      × (units m + units v ≡ units r)
      × IsCurrency m
unfolding next_quotient
next_quotient_lem v r tq hv hr word h = elim (sub_exact r v hr hv) [
  | inl (m, e, exact, fits) ↦ (m, rw (e, next_quotient) (ground arith), exact, fits)
  | inr (e, below) ↦ absurd (omega arith)
]

-- From a trial remainder below twice the divisor, the adjustment gives the exact remainder.
correct_lem :
    (v r : Currency) (tq : ℕ)
    → IsCurrency v
    → IsCurrency r
    → tq + 1 < 2 ^ 64
    → units r < 2 * units v
    → (q : Currency) × (m : Currency) × (correct v (new_currency64 tq) r ≡ some (q, m))
      × (units q * units v + units m ≡ tq * units v + units r)
      × (units m < units v)
      × IsCurrency q
      × IsCurrency m
unfolding correct
correct_lem v r tq hv hr word small = elim (cmp_split r v hr hv) [
  | inl (e, below) ↦ (
    new_currency64 tq,
    r,
    rw (e, correct),
    omega arith,
    below,
    record { lo_fits = omega arith; hi_fits = omega arith },
    hr,
  )
  | inr (e, above) ↦
      let (m, d, exact, fits) = next_quotient_lem v r tq hv hr word above in
      (
        new_currency64 (tq + 1),
        m,
        elim e [ inl s ↦ rw (s, correct) d | inr g ↦ rw (g, correct) d ],
        omega (arith, exact),
        omega (arith, exact),
        record { lo_fits = omega arith; hi_fits = omega arith },
        fits,
      )
]

adjust_lem :
    (c v : Currency) (tq : ℕ)
    → IsCurrency c
    → IsCurrency v
    → tq + 1 < 2 ^ 64
    → tq * units v ≤ units c
    → units c < (tq + 2) * units v
    → (q : Currency) × (m : Currency) × (adjust c v tq ≡ some (q, m))
      × (units q * units v + units m ≡ units c)
      × (units m < units v)
      × IsCurrency q
      × IsCurrency m
unfolding adjust
adjust_lem c v tq hc hv word low high = elim (mul_64_exact v tq hv (omega arith)) [
  | inr (e, big) ↦ absurd (omega (arith, units-lt c hc))
  | inl (p, e, exact, fits) ↦ elim (sub_exact c p hc fits) [
    | inr (e', below) ↦ absurd (omega arith)
    | inl (r, e', exact', fits') ↦
        let (q, m, done, sum, small, fq, fm) =
          correct_lem v r tq hv fits' word (omega (arith, exact, exact')) in
        (q, m, rw (e, e', adjust) done, omega (arith, sum, exact, exact'), small, fq, fm)
  ]
]

halved-units :
    (c : Currency)
    → IsCurrency c
    → ((halved c).hi * 2 ^ 64 + (halved c).lo ≡ units c / 2)
      × ((halved c).hi < 2 ^ 63)
      × ((halved c).lo < 2 ^ 64)
unfolding halved
halved-units c hc = omega arith

two-pow-cases : (k : ℕ) → (2 ^ suc k ≡ 2) ⊎ (4 ≤ 2 ^ suc k)
two-pow-cases zero = inl refl
two-pow-cases (suc k) = inr (omega (arith, two-pow-suc (suc k), two-pow-suc k, two-pow-pos k))

decrement_bounds :
    (t c v : ℕ)
    → t < 2 ^ 64
    → t * v ≤ c + v
    → c < (t + 1) * v
    → (decrement t + 1 < 2 ^ 64) × (decrement t * v ≤ c) × (c < (decrement t + 2) * v)
unfolding decrement
decrement_bounds zero c v word low high = (omega arith, omega arith, omega arith)
decrement_bounds (suc t) c v word low high = (ground arith, ground arith, ground arith)

-- A trial quotient from the source's shift, division and shift.
module _ (c v : Currency) (hc : IsCurrency c) (hv : IsCurrency v) (n k d t : ℕ) where
  trial_lem :
      (k ≡ 2 ^ (63 - n))
      → n ≤ 63
      → 2 ^ 63 ≤ d
      → d * (k + k) ≤ units v
      → units v < d * (k + k) + (k + k)
      → t ≡ units c / 2 / d / k
      → (decrement t + 1 < 2 ^ 64)
        × (decrement t * units v ≤ units c)
        × (units c < (decrement t + 2) * units v)
  trial_lem size small top below above e = decrement_bounds t (units c) (units v) word tq.0 tq.1
    where
      k_pos : 0 < k
      k_pos = rw size (two-pow-pos (63 - n))

      raw : (t * (d * k) ≤ units c / 2) × (units c / 2 < (t + 1) * (d * k))
      raw = rw e (trial_bounds (units c / 2) d k (omega arith) k_pos)

      doubled : k + k ≡ 2 ^ suc (63 - n)
      doubled = omega (arith, size, two-pow-suc (63 - n))

      tq : (t * units v ≤ units c + units v) × (units c < (t + 1) * units v)
      tq =
          trial_quotient (units c) (units v) d (k + k) t (rw doubled (two-pow-cases (63 - n))) top
            below above (omega (arith, raw)) (omega (arith, raw)) (units-lt c hc)

      word : t < 2 ^ 64
      word =
          omega (arith, raw, units-lt c hc, mul-le-mul_right (t * k) top, mul-le-mul_left t k_pos)

quo_rem_wide_lem :
    (c v : Currency)
    → IsCurrency c
    → IsCurrency v
    → 0 < v.hi
    → (q : Currency) × (r : Currency) × (quo_rem_wide c v ≡ some (q, r))
      × (units q * units v + units r ≡ units c)
      × (units r < units v)
      × IsCurrency q
      × IsCurrency r
unfolding quo_rem_wide
quo_rem_wide_lem c v hc hv pos =
    let (q, r, e, sum, small, fq, fr) =
      adjust_lem c v (decrement (units c / 2 / d / k)) hc hv trial.0 trial.1 trial.2 in
    (q, r, rw (divides, quo_rem_wide) e, sum, small, fq, fr)
  where
    n : ℕ
    n = leading_zeros64 v.hi

    k : ℕ
    k = 2 ^ (63 - n)

    d : ℕ
    d = (shifted v n).hi

    zeros : (2 ^ 63 ≤ v.hi * 2 ^ n) × (v.hi * 2 ^ n < 2 ^ 64) × (n ≤ 63)
    zeros = leading_zeros64_lem v.hi hv.hi_fits pos

    doubled : k + k ≡ 2 ^ (64 - n)
    doubled =
        let next : 64 - n ≡ suc (63 - n) = omega (arith, zeros.2) in
        rw next (sym (two-pow-suc (63 - n)))

    whole : 2 ^ n * 2 ^ (64 - n) ≡ 2 ^ 64
    whole =
        let total : 64 ≡ n + (64 - n) = omega (arith, zeros.2) in
        sym (ap (λ (t : ℕ). 2 ^ t) total ∙ two-pow-add n (64 - n))

    divisor : (2 ^ 63 ≤ d) × (d * (k + k) ≤ units v) × (units v < d * (k + k) + (k + k))
    divisor = rw doubled (shifted_lem v n (2 ^ (64 - n)) hv whole refl zeros.0 zeros.1)

    half :
        ((halved c).hi * 2 ^ 64 + (halved c).lo ≡ units c / 2)
        × ((halved c).hi < 2 ^ 63)
        × ((halved c).lo < 2 ^ 64)
    half = halved-units c hc

    divides : div64 (halved c).hi (halved c).lo d ≡ some (units c / 2 / d, units c / 2 % d)
    divides = rw (← half.0) (ground (arith, half.1, divisor.0))

    trial :
        (decrement (units c / 2 / d / k) + 1 < 2 ^ 64)
        × (decrement (units c / 2 / d / k) * units v ≤ units c)
        × (units c < (decrement (units c / 2 / d / k) + 2) * units v)
    trial = trial_lem c v hc hv n k d _ refl zeros.2 divisor.0 divisor.1 divisor.2 refl

-- A nonzero divisor: the quotient and the remainder are exact. (The intermediate products and
-- differences never panic.)
pub quo_rem_exact :
    (c v : Currency)
    → IsCurrency c
    → IsCurrency v
    → 0 < units v
    → (q : Currency) × (r : Currency) × (quo_rem c v ≡ some (q, r))
      × (units q * units v + units r ≡ units c)
      × (units r < units v)
      × IsCurrency q
      × IsCurrency r
unfolding quo_rem
quo_rem_exact c v hc hv pos = elim (Bool-cases (v.hi == 0)) [
  | inr wide ↦
      let (q, r, e, sum, small, fq, fr) = quo_rem_wide_lem c v hc hv (ground arith) in
      (q, r, rw wide e, sum, small, fq, fr)
  | inl narrow ↦ elim (quo_rem64_exact c v.lo hc) [
    | inl (q, r, e, sum, small, fits) ↦ (
      q,
      new_currency64 r,
      rw (narrow, e),
      ground arith,
      ground arith,
      fits,
      record { lo_fits = omega arith; hi_fits = omega arith },
    )
    | inr (e, none_left) ↦ absurd (ground arith)
  ]
]
