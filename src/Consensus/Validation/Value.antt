-- ===== src/Consensus/Validation/Value.antt =====
-- Money in a transaction: what validateCurrencyValues and outputsEqualInputs accept.
use native.Mathlib.Nat.{add-zero, zero-add, add_assoc}
use sunyata.Common.{
  ℕ, ◌+◌, ◌^◌, ◌≤◌, ◌<◌, ◌≡◌, ◌≢◌, ◌⊎◌, refl, inl, inr, arith, Bool, true, false, List, [], ◌∷◌,
  All, Bool-cases, leb, ◌==◌, subst,
}
use sunyata.Common.Outcome.{ok, err, ◌>>=◌, fail_if}
use sunyata.Currency.{
  Currency, IsCurrency, units, zero_currency, add_with_overflow, is_zero, equals,
}
use sunyata.Currency.Arithmetic.{add_exact, units-lt}
use sunyata.Types.{Output, Input, Transaction}
use sunyata.Consensus.Errors.{Result, zero_value, overflow, unequal}
use sunyata.Consensus.Validation.{
  add_value, add_inputs, add_outputs, validate_currency_values, total_inputs, total_outputs,
  add_or_panic, outputs_equal_inputs,
}

-- The currency fields of a transaction are pairs of 64-bit words.
abbrev pub HasCurrencies : Transaction → Type 0
HasCurrencies txn =
    All (λ (in' : Input). IsCurrency in'.parent.value) txn.inputs
    × All (λ (out : Output). IsCurrency out.value) txn.outputs
    × IsCurrency txn.miner_fee

-- Sums as numbers, which do not overflow.
abbrev pub input_units : List Input → ℕ
input_units [] = 0
input_units (in' ∷ ins) = units in'.parent.value + input_units ins

abbrev pub output_units : List Output → ℕ
output_units [] = 0
output_units (out ∷ outs) = units out.value + output_units outs

abbrev pub NonzeroOutputs : List Output → Type 0
NonzeroOutputs = All (λ (out : Output). 0 < units out.value)

-- The accumulated sum and the flag stand for the number `n`.
abbrev Holds : Currency × Bool → ℕ → Type 0
Holds (sum, overflowed) n =
    ((overflowed ≡ false) × (units sum ≡ n) × IsCurrency sum)
    ⊎ ((overflowed ≡ true) × (2 ^ 128 ≤ n))

add_with_overflow_exact :
    (sum x : Currency)
    → IsCurrency sum
    → IsCurrency x
    → Holds (add_with_overflow sum x) (units sum + units x)
unfolding add_with_overflow
add_with_overflow_exact sum x hs hx = elim (Bool-cases (leb (2 ^ 128) (units sum + units x))) [
  | inl big ↦ inr (ground arith, ground arith)
  | inr fits ↦
      inl (ground arith, ground arith, record { lo_fits = omega arith; hi_fits = omega arith })
]

add_value-Holds :
    (acc : Currency × Bool) (x : Currency) (n : ℕ)
    → IsCurrency x
    → Holds acc n
    → Holds (add_value acc x) (n + units x)
unfolding add_value
add_value-Holds (sum, true) x n hx (inl (e, same, fits)) = absurd (cc)
add_value-Holds (sum, true) x n hx (inr (e, big)) = inr (refl, omega arith)
add_value-Holds (sum, false) x n hx (inl (e, same, fits)) =
    rw (← same) (add_with_overflow_exact sum x fits hx)
add_value-Holds (sum, false) x n hx (inr (e, big)) = absurd (cc)

add_inputs-Holds :
    (acc : Currency × Bool) (ins : List Input) (n : ℕ)
    → All (λ (in' : Input). IsCurrency in'.parent.value) ins
    → Holds acc n
    → Holds (add_inputs acc ins) (n + input_units ins)
unfolding add_inputs
add_inputs-Holds acc [] n fits h = rw add-zero h
add_inputs-Holds acc (in' ∷ ins) n fits h = rw (← add_assoc) (
    add_inputs-Holds (add_value acc in'.parent.value) ins (n + units in'.parent.value) fits.1
      (add_value-Holds acc in'.parent.value n fits.0 h))

is_zero-cases :
    (c : Currency) → ((is_zero c ≡ true) × (units c ≡ 0)) ⊎ ((is_zero c ≡ false) × (0 < units c))
unfolding is_zero
is_zero-cases c = elim (Bool-cases (units c == 0)) [
  | inl e ↦ inl (ground arith, ground arith)
  | inr e ↦ inr (ground arith, ground arith)
]

-- The outputs are added up, unless one of them is zero.
abbrev OutputsAdded : Currency × Bool → ℕ → List Output → Type 0
OutputsAdded acc n outs =
    ((acc' : Currency × Bool) × (add_outputs acc outs ≡ ok acc')
      × Holds acc' (n + output_units outs)
      × NonzeroOutputs outs)
    ⊎ ((add_outputs acc outs ≡ err zero_value) × (¬ NonzeroOutputs outs))

add_outputs-cases :
    (acc : Currency × Bool) (outs : List Output) (n : ℕ)
    → All (λ (out : Output). IsCurrency out.value) outs
    → Holds acc n
    → OutputsAdded acc n outs
unfolding add_outputs
add_outputs-cases acc [] n fits h = inl (acc, refl, rw add-zero h, tt)
add_outputs-cases acc (out ∷ outs) n fits h = elim (is_zero-cases out.value) [
  | inl (e, none_left) ↦ inr (rw e, λ nonzero. absurd (omega (arith, nonzero.0)))
  | inr (e, pos) ↦
      elim (add_outputs-cases (add_value acc out.value) outs (n + units out.value) fits.1
        (add_value-Holds acc out.value n fits.0 h)) [
          | inl (acc', done, holds, nonzero) ↦
              inl (acc', rw e done, rw (← add_assoc) holds, (pos, nonzero))
          | inr (done, zero_left) ↦ inr (rw e done, λ nonzero. zero_left nonzero.1)
        ]
]

-- The sum that validateCurrencyValues takes.
abbrev pub value_sum : Transaction → ℕ
value_sum txn = input_units txn.inputs + output_units txn.outputs + units txn.miner_fee

-- The three ways in which validateCurrencyValues ends.
abbrev pub CurrencyCases : Transaction → Type 0
CurrencyCases txn =
    ((validate_currency_values txn ≡ ok tt)
      × NonzeroOutputs txn.outputs
      × (value_sum txn < 2 ^ 128))
    ⊎ ((validate_currency_values txn ≡ err overflow) × (2 ^ 128 ≤ value_sum txn))
    ⊎ ((validate_currency_values txn ≡ err zero_value) × (¬ NonzeroOutputs txn.outputs))

pub currency_cases : (txn : Transaction) → HasCurrencies txn → CurrencyCases txn
unfolding validate_currency_values
currency_cases txn fits =
    elim (add_outputs-cases start txn.outputs (input_units txn.inputs) fits.1 started) [
      | inr (e, zero_left) ↦ inr (inr (rw (e, ◌>>=◌), zero_left))
      | inl (acc, e, holds, nonzero) ↦
          elim (add_value-Holds acc txn.miner_fee
            (input_units txn.inputs + output_units txn.outputs) fits.2 holds) [
              | inl (clear, same, word) ↦
                  inl (rw (e, ◌>>=◌) (rw (clear, fail_if)), nonzero, rw (← same) (units-lt _ word))
              | inr (set, big) ↦ inr (inl (rw (e, ◌>>=◌) (rw (set, fail_if)), big))
            ]
    ]
  where
    start : Currency × Bool
    start = add_inputs (zero_currency, false) txn.inputs

    started : Holds start (input_units txn.inputs)
    started = subst (Holds start) (zero-add (input_units txn.inputs)) (
        add_inputs-Holds (zero_currency, false) txn.inputs 0 fits.0
          (inl (refl, refl, record { lo_fits = omega arith; hi_fits = omega arith })))

-- A running total that has room for the rest.
abbrev Total : Currency → ℕ → Result Currency → Type 0
Total total n r = (t : Currency) × (r ≡ ok t) × (units t ≡ units total + n) × IsCurrency t

add_or_panic-Total :
    (total x : Currency)
    → IsCurrency total
    → IsCurrency x
    → units total + units x < 2 ^ 128
    → Total total (units x) (add_or_panic total x)
add_or_panic-Total total x ht hx small = elim (add_exact total x ht hx) [
  | inl (s, e, same, fits) ↦ (s, rw (e, add_or_panic), same, fits)
  | inr (e, big) ↦ absurd (omega arith)
]

total_inputs-Total :
    (total : Currency) (ins : List Input)
    → IsCurrency total
    → All (λ (in' : Input). IsCurrency in'.parent.value) ins
    → units total + input_units ins < 2 ^ 128
    → Total total (input_units ins) (total_inputs total ins)
unfolding total_inputs
total_inputs-Total total [] ht hs small = (total, refl, omega arith, ht)
total_inputs-Total total (in' ∷ ins) ht hs small =
    let (s, e, same, fits) = add_or_panic-Total total in'.parent.value ht hs.0 (omega arith) in
    let (t, e', same', fits') = total_inputs-Total s ins fits hs.1 (omega arith) in
    (t, rw e e', omega (arith, same, same'), fits')

total_outputs-Total :
    (total : Currency) (outs : List Output)
    → IsCurrency total
    → All (λ (out : Output). IsCurrency out.value) outs
    → units total + output_units outs < 2 ^ 128
    → Total total (output_units outs) (total_outputs total outs)
unfolding total_outputs
total_outputs-Total total [] ht hs small = (total, refl, omega arith, ht)
total_outputs-Total total (out ∷ outs) ht hs small =
    let (s, e, same, fits) = add_or_panic-Total total out.value ht hs.0 (omega arith) in
    let (t, e', same', fits') = total_outputs-Total s outs fits hs.1 (omega arith) in
    (t, rw e e', omega (arith, same, same'), fits')

equals-cases :
    (a b : Currency)
    → IsCurrency a
    → IsCurrency b
    → ((equals a b ≡ true) × (units a ≡ units b)) ⊎ ((equals a b ≡ false) × (units a ≢ units b))
unfolding equals
equals-cases a b ha hb = elim (Bool-cases (units a == units b)) [
  | inl e ↦ inl (ground arith, ground arith)
  | inr e ↦ inr (ground arith, ground arith)
]

pub balance_cases :
    (txn : Transaction)
    → HasCurrencies txn
    → value_sum txn < 2 ^ 128
    → ((outputs_equal_inputs txn ≡ ok tt)
        × (input_units txn.inputs ≡ output_units txn.outputs + units txn.miner_fee))
      ⊎ ((outputs_equal_inputs txn ≡ err unequal)
          × (input_units txn.inputs ≢ output_units txn.outputs + units txn.miner_fee))
unfolding outputs_equal_inputs
balance_cases txn fits small =
    let zero_fits : IsCurrency zero_currency = record {
      lo_fits = omega arith;
      hi_fits = omega arith;
    } in
    let (a, ea, va, fa) =
      total_inputs-Total zero_currency txn.inputs zero_fits fits.0 (omega arith) in
    let (b, eb, vb, fb) =
      total_outputs-Total zero_currency txn.outputs zero_fits fits.1 (omega arith) in
    let (c, ec, vc, fc) = add_or_panic-Total b txn.miner_fee fb fits.2 (omega (arith, vb)) in
    elim (equals-cases a c fa fc) [
      | inl (e, same) ↦ inl (rw (ea, eb) (rw (ec, e)), omega (arith, va, vb, vc, same))
      | inr (e, differ) ↦
          inr (rw (ea, eb) (rw (ec, e)), λ same. absurd (differ (omega (arith, va, vb, vc, same))))
    ]

-- The money rules of a transaction, as numbers.
pub record IsBalanced (txn : Transaction) : Type 0 where
  pub no_zero : NonzeroOutputs txn.outputs
  pub in_range : value_sum txn < 2 ^ 128
  pub conserved : input_units txn.inputs ≡ output_units txn.outputs + units txn.miner_fee
