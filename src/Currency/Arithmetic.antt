-- ===== src/Currency/Arithmetic.antt =====
-- The operations of currency.go against arithmetic on the number of base units.
use sunyata.Common.{
  ℕ, ◌+◌, ◌-◌, ◌*◌, ◌/◌, ◌%◌, ◌^◌, ◌<◌, ◌≤◌, ◌≡◌, ◌⊎◌, refl, inl, inr, true, false, none, some,
  arith, ltb, leb, Bool-cases,
}
use sunyata.Currency.{
  Currency, Sign, IsCurrency, units, new_currency, cmp, less, same, greater, add, sub, mul_64,
}

pub units-lt : (c : Currency) → IsCurrency c → units c < 2 ^ 128
units-lt c v = omega arith

pub units-injective : (a b : Currency) → IsCurrency a → IsCurrency b → units a ≡ units b → a ≡ b
units-injective a b va vb h =
    let lo : a.lo ≡ b.lo = omega arith in let hi : a.hi ≡ b.hi = omega arith in ground arith

pub Sign-cases : (s : Sign) → (s ≡ less) ⊎ (s ≡ same) ⊎ (s ≡ greater)
Sign-cases less = inl refl
Sign-cases same = inr (inl refl)
Sign-cases greater = inr (inr refl)

-- Cmp orders two amounts as the numbers of base units.
pub cmp_exact :
    (c v : Currency)
    → IsCurrency c
    → IsCurrency v
    → ((cmp c v ≡ less) × (units c < units v))
      ⊎ ((cmp c v ≡ same) × (units c ≡ units v))
      ⊎ ((cmp c v ≡ greater) × (units v < units c))
unfolding cmp
cmp_exact c v hc hv = elim (Sign-cases (cmp c v)) [
  | inl e ↦ inl (e, ground arith)
  | inr (inl e) ↦ inr (inl (e, ground arith))
  | inr (inr e) ↦ inr (inr (e, ground arith))
]

-- Add returns the exact sum, within the representation, and panics exactly when the sum does not fit
-- 128 bits.
pub add_exact :
    (c v : Currency)
    → IsCurrency c
    → IsCurrency v
    → ((s : Currency) × (add c v ≡ some s) × (units s ≡ units c + units v) × IsCurrency s)
      ⊎ ((add c v ≡ none) × (2 ^ 128 ≤ units c + units v))
unfolding add
add_exact c v hc hv = elim (Bool-cases (leb (2 ^ 128) (units c + units v))) [
  | inl big ↦ inr (ground arith, ground arith)
  | inr fits ↦ inl (
    new_currency ((c.lo + v.lo) % 2 ^ 64) ((c.hi + v.hi + (c.lo + v.lo) / 2 ^ 64) % 2 ^ 64),
    ground arith,
    ground arith,
    record { lo_fits = omega arith; hi_fits = omega arith },
  )
]

-- Sub returns the exact difference, and panics exactly when it would be negative.
pub sub_exact :
    (c v : Currency)
    → IsCurrency c
    → IsCurrency v
    → ((d : Currency) × (sub c v ≡ some d) × (units d + units v ≡ units c) × IsCurrency d)
      ⊎ ((sub c v ≡ none) × (units c < units v))
unfolding sub
sub_exact c v hc hv = elim (Bool-cases (ltb (units c) (units v))) [
  | inl under ↦ inr (ground arith, ground arith)
  | inr fits ↦ inl (
    elim (ltb c.lo v.lo) [
      | true ↦ new_currency (c.lo + 2 ^ 64 - v.lo) (c.hi - v.hi - 1)
      | false ↦ new_currency (c.lo - v.lo) (c.hi - v.hi)
    ],
    ground arith,
    ground arith,
    ground arith,
  )
]

-- Mul64 returns the exact product, and panics exactly when the product does not fit 128 bits.
pub mul_64_exact :
    (c : Currency) (v : ℕ)
    → IsCurrency c
    → v < 2 ^ 64
    → ((p : Currency) × (mul_64 c v ≡ some p) × (units p ≡ units c * v) × IsCurrency p)
      ⊎ ((mul_64 c v ≡ none) × (2 ^ 128 ≤ units c * v))
unfolding mul_64
mul_64_exact c v hc hv = elim (Bool-cases (leb (2 ^ 128) (units c * v))) [
  | inl big ↦ inr (ground arith, ground arith)
  | inr fits ↦ inl (
    new_currency (c.lo * v % 2 ^ 64) (c.lo * v / 2 ^ 64 + c.hi * v),
    ground arith,
    ground arith,
    record { lo_fits = omega arith; hi_fits = ground arith },
  )
]
