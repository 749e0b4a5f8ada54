-- ===== src/Currency.antt =====
-- currency.go: unsigned 128-bit amounts as two 64-bit words. `none` is a panic.
pub mod Arithmetic
pub mod Division
use sunyata.Common.{
  ℕ, ◌+◌, ◌-◌, ◌*◌, ◌/◌, ◌%◌, ◌^◌, ◌<◌, Bool, true, false, ◌&&◌, ◌||◌, not, Option, none, some, ltb,
  ◌==◌, if◌then◌else◌,
}
use sunyata.Common.Word.{add_u64, add64, sub64, mul64, div64, leading_zeros64}

pub record Currency : Type 0 where
  pub lo : ℕ
  pub hi : ℕ

-- Both words fit 64 bits.
pub record IsCurrency (c : Currency) : Type 0 where
  pub lo_fits : c.lo < 2 ^ 64
  pub hi_fits : c.hi < 2 ^ 64

-- The number of base units.
abbrev pub units : Currency → ℕ
units c = c.hi * 2 ^ 64 + c.lo

abbrev pub new_currency : ℕ → ℕ → Currency
new_currency lo hi = record { lo = lo; hi = hi }

abbrev pub new_currency64 : ℕ → Currency
new_currency64 c = record { lo = c; hi = 0 }

abbrev pub zero_currency : Currency
zero_currency = record { lo = 0; hi = 0 }

abbrev pub base_units_per_coin : Currency
base_units_per_coin = new_currency64 1_000_000_000

-- Equals, and Go's `==` on the struct.
unfoldable pub equals : Currency → Currency → Bool
equals c v = (c.lo == v.lo) && (c.hi == v.hi)

unfoldable pub is_zero : Currency → Bool
unfolding equals
is_zero c = equals c zero_currency

-- The three results of Cmp: -1, 0 and 1.
pub data Sign : Type 0 where
  less same greater : Sign

unfoldable pub cmp : Currency → Currency → Sign
unfolding equals
cmp c v =
    if equals c v
    then same
    else if ltb c.hi v.hi || ((c.hi == v.hi) && ltb c.lo v.lo)
    then less
    else greater

unfoldable pub add_with_overflow : Currency → Currency → Currency × Bool
add_with_overflow c v =
    let (lo, carry0) = add64 c.lo v.lo 0 in
    let (hi, carry) = add64 c.hi v.hi carry0 in (new_currency lo hi, not (carry == 0))

-- `none` where the source panics with "overflow".
unfoldable pub add : Currency → Currency → Option Currency
unfolding add_with_overflow
add c v = let (s, overflow) = add_with_overflow c v in if overflow then none else some s

unfoldable pub sub_with_underflow : Currency → Currency → Currency × Bool
sub_with_underflow c v =
    let (lo, borrow0) = sub64 c.lo v.lo 0 in
    let (hi, borrow) = sub64 c.hi v.hi borrow0 in (new_currency lo hi, not (borrow == 0))

unfoldable pub sub : Currency → Currency → Option Currency
unfolding sub_with_underflow
sub c v = let (s, underflow) = sub_with_underflow c v in if underflow then none else some s

unfoldable pub mul_64 : Currency → ℕ → Option Currency
mul_64 c v =
    let (hi0, lo0) = mul64 c.lo v in
    let (hi1, lo1) = mul64 c.hi v in
    let (hi2, c0) = add64 hi0 lo1 0 in
    if not (hi1 == 0) || not (c0 == 0) then none else some (new_currency lo0 hi2)

-- The second division of quoRem64, on the remainder of the first.
unfoldable pub quo_rem_low : ℕ → ℕ → ℕ → ℕ → Option (Currency × ℕ)
quo_rem_low q_hi r lo v = elim (div64 r lo v) [
  | none ↦ none
  | some (q_lo, r') ↦ some (new_currency q_lo q_hi, r')
]

unfoldable pub quo_rem64 : Currency → ℕ → Option (Currency × ℕ)
quo_rem64 c v =
    if ltb c.hi v
    then quo_rem_low 0 c.hi c.lo v
    else elim (div64 0 c.hi v) [ none ↦ none | some (q_hi, r) ↦ quo_rem_low q_hi r c.lo v ]

unfoldable pub div_64 : Currency → ℕ → Option Currency
div_64 c v = elim (quo_rem64 c v) [ none ↦ none | some (q, r) ↦ some q ]

-- quoRem, in the source's steps: the divisor shifted left by its leading zeros (the two fields that
-- `|` joins are disjoint, so it is written as a sum), half the dividend, and the trial quotient.
unfoldable pub shifted : Currency → ℕ → Currency
shifted v n = new_currency (v.lo * 2 ^ n % 2 ^ 64) (v.hi * 2 ^ n % 2 ^ 64 + v.lo / 2 ^ (64 - n))

unfoldable pub halved : Currency → Currency
halved c = new_currency (c.lo / 2 + c.hi * 2 ^ 63 % 2 ^ 64) (c.hi / 2)

-- `q.Lo++; if q.Lo == 0 { q.Hi++ }; r = r.Sub(v)`
unfoldable pub next_quotient : Currency → Currency → Currency → Option (Currency × Currency)
next_quotient v q r = elim (sub r v) [
  | none ↦ none
  | some r' ↦
      let lo = add_u64 q.lo 1 in
      some (new_currency lo (if lo == 0 then add_u64 q.hi 1 else q.hi), r')
]

-- `if r.Cmp(v) >= 0`
unfoldable pub correct : Currency → Currency → Currency → Option (Currency × Currency)
correct v q r = elim (cmp r v) [
  | less ↦ some (q, r)
  | same ↦ next_quotient v q r
  | greater ↦ next_quotient v q r
]

-- The remainder for the trial quotient, and its adjustment.
unfoldable pub adjust : Currency → Currency → ℕ → Option (Currency × Currency)
adjust c v tq = elim (mul_64 v tq) [
  | none ↦ none
  | some p ↦ elim (sub c p) [ none ↦ none | some r ↦ correct v (new_currency64 tq) r ]
]

-- `if tq != 0 { tq-- }`
unfoldable pub decrement : ℕ → ℕ
decrement tq = if tq == 0 then 0 else tq - 1

-- The branch of a divisor above one word.
unfoldable pub quo_rem_wide : Currency → Currency → Option (Currency × Currency)
quo_rem_wide c v =
    let n = leading_zeros64 v.hi in
    let u1 = halved c in
    elim (div64 u1.hi u1.lo (shifted v n).hi) [
      | none ↦ none
      | some (t, rem) ↦ adjust c v (decrement (t / 2 ^ (63 - n)))
    ]

unfoldable pub quo_rem : Currency → Currency → Option (Currency × Currency)
quo_rem c v =
    if v.hi == 0
    then elim (quo_rem64 c v.lo) [ none ↦ none | some (q, r) ↦ some (q, new_currency64 r) ]
    else quo_rem_wide c v

unfoldable pub div : Currency → Currency → Option Currency
div c v = elim (quo_rem c v) [ none ↦ none | some (q, r) ↦ some q ]
