-- ===== src/Wallet/Funding.antt =====
-- What ReserveFunds and Fund choose.
use sunyata.Common.{
  ℕ, ◌+◌, ◌^◌, ◌≤◌, ◌<◌, ◌≡◌, ◌⊎◌, refl, inl, inr, arith, Bool, true, false, not, ◌||◌, some, List,
  [], ◌∷◌, ◌++◌, All, Bool-cases, if◌then◌else◌,
}
use sunyata.Common.Outcome.{ok, err, ◌>>=◌}
use sunyata.Currency.{Currency, IsCurrency, units, zero_currency, is_zero}
use sunyata.Currency.Arithmetic.{add_exact, cmp_exact}
use sunyata.Types.{OutputElement, Transaction}
use sunyata.Wallet.{
  Store, TransactionBuilder, WalletError, has_id, pool_ids, reaches, choose, element_ids, funding,
  reserve_funds,
}

abbrev pub element_units : List OutputElement → ℕ
element_units [] = 0
element_units (sce ∷ sces) = units sce.value + element_units sces

pub reaches-cases :
    (sum amount : Currency)
    → IsCurrency sum
    → IsCurrency amount
    → ((reaches sum amount ≡ true) × (units amount ≤ units sum))
      ⊎ ((reaches sum amount ≡ false) × (units sum < units amount))
unfolding reaches
reaches-cases sum amount hs ha = elim (cmp_exact sum amount hs ha) [
  | inl (e, lt) ↦ inr (rw (e, reaches) refl, lt)
  | inr (inl (e, eq)) ↦ inl (rw (e, reaches) refl, omega (arith, eq))
  | inr (inr (e, gt)) ↦ inl (rw (e, reaches) refl, omega (arith, gt))
]

-- What the usable ones of the elements are worth.
abbrev pub usable_units : (OutputElement → Bool) → List OutputElement → ℕ
usable_units usable [] = 0
usable_units usable (sce ∷ sces) =
    if usable sce then units sce.value + usable_units usable sces else usable_units usable sces

-- The elements of the first list occur in the second, in its order.
abbrev pub Sublist : List OutputElement → List OutputElement → Type 0
Sublist [] ys = Unit
Sublist (x ∷ xs) [] = ⊥
Sublist (x ∷ xs) (y ∷ ys) = ((x ≡ y) × Sublist xs ys) ⊎ Sublist (x ∷ xs) ys

Sublist-cons :
    (y : OutputElement) (xs ys : List OutputElement) → Sublist xs ys → Sublist xs (y ∷ ys)
Sublist-cons y [] ys s = tt
Sublist-cons y (x ∷ xs) ys s = inr s

-- The elements that are chosen for an amount, from a sum so far: they are usable ones of the unspent
-- outputs, the total is their worth, and it reaches the amount unless all usable ones were taken.
pub record IsChosen (usable : OutputElement → Bool) (amount : Currency) (sum : ℕ)
    (utxos chosen : List OutputElement) (total : Currency) : Type 0 where
  pub from_utxos : Sublist chosen utxos
  pub all_usable : All (λ sce. usable sce ≡ true) chosen
  pub total_lem : units total ≡ sum + element_units chosen
  pub total_fits : IsCurrency total
  pub reached : (units amount ≤ units total) ⊎ (units total ≡ sum + usable_units usable utxos)

pub choose-IsChosen :
    (usable : OutputElement → Bool) (amount sum : Currency) (utxos : List OutputElement)
    → IsCurrency amount
    → IsCurrency sum
    → All (λ (sce : OutputElement). IsCurrency sce.value) utxos
    → units sum + element_units utxos < 2 ^ 128
    → (chosen : List OutputElement) × (total : Currency) × (choose usable amount sum utxos
        ≡ ok (chosen, total))
      × IsChosen usable amount (units sum) utxos chosen total
unfolding choose
choose-IsChosen usable amount sum [] ha hs fits small = (
  [],
  sum,
  refl,
  record {
    from_utxos = tt;
    all_usable = tt;
    total_lem = omega arith;
    total_fits = hs;
    reached = inr (omega arith);
  },
)
choose-IsChosen usable amount sum (sce ∷ utxos) ha hs fits small = elim (Bool-cases (usable sce)) [
  | inr unusable ↦
      let (chosen, total, e, c) =
        choose-IsChosen usable amount sum utxos ha hs fits.1 (omega (arith, small)) in
      (
        chosen,
        total,
        rw unusable e,
        record {
          from_utxos = Sublist-cons sce chosen utxos c.from_utxos;
          all_usable = c.all_usable;
          total_lem = c.total_lem;
          total_fits = c.total_fits;
          reached = rw unusable c.reached;
        },
      )
  | inl use_it ↦ elim (add_exact sum sce.value hs fits.0) [
    | inr (overflow, big) ↦ absurd (omega (arith, big, small))
    | inl (sum', added, exact, hs') ↦ elim (reaches-cases sum' amount hs' ha) [
      | inl (enough, le) ↦ (
        sce ∷ [],
        sum',
        rw (use_it, added, enough) refl,
        record {
          from_utxos = inl (refl, tt);
          all_usable = (use_it, tt);
          total_lem = omega (arith, exact);
          total_fits = hs';
          reached = inl le;
        },
      )
      | inr (more, lt) ↦
          let (chosen, total, e, c) =
            choose-IsChosen usable amount sum' utxos ha hs' fits.1 (omega (arith, small, exact)) in
          (
            sce ∷ chosen,
            total,
            rw (use_it, added, more, e) refl,
            record {
              from_utxos = inl (refl, c.from_utxos);
              all_usable = (use_it, c.all_usable);
              total_lem = omega (arith, c.total_lem, exact);
              total_fits = c.total_fits;
              reached = elim c.reached [
                | inl le ↦ inl le
                | inr all ↦ inr (rw use_it (omega (arith, all, exact)))
              ];
            },
          )
    ]
  ]
]

module _ {S : Type 0} (ops : Store S) where
  -- An element that is neither reserved nor spent in the pool.
  abbrev pub free : TransactionBuilder S → List Transaction → OutputElement → Bool
  free tb pool sce = not (has_id tb.used sce.id || has_id (pool_ids pool) sce.id)

  -- ReserveFunds, for a nonzero amount and unspent outputs that are worth less than 2^128 in all:
  -- either it returns elements that were neither reserved nor spent in the pool and are worth at
  -- least the amount, and reserves them besides those reserved before; or the free elements are
  -- worth less than the amount, and it returns an error.
  pub reserve_funds_lem :
      (tb : TransactionBuilder S) (amount : Currency) (pool : List Transaction)
      (utxos : List OutputElement)
      → ops.unspent_output_elements tb.store ≡ some utxos
      → IsCurrency amount
      → is_zero amount ≡ false
      → All (λ (sce : OutputElement). IsCurrency sce.value) utxos
      → element_units utxos < 2 ^ 128
      → ((chosen : List OutputElement) × (reserve_funds ops tb amount pool
            ≡ ok (chosen, record tb { used = element_ids chosen ++ tb.used }))
          × All (λ sce. free tb pool sce ≡ true) chosen
          × (units amount ≤ element_units chosen))
        ⊎ ((reserve_funds ops tb amount pool ≡ err WalletError.insufficient_balance)
            × (usable_units (free tb pool) utxos < units amount))
  unfolding reserve_funds funding
  reserve_funds_lem tb amount pool utxos found ha nonzero fits small =
      let (chosen, total, e, c) =
        choose-IsChosen (free tb pool) amount zero_currency utxos ha
          (record { lo_fits = omega arith; hi_fits = omega arith }) fits (omega (arith, small)) in
      elim (reaches-cases total amount c.total_fits ha) [
        | inl (enough, le) ↦ inl (
          chosen,
          rw (nonzero, found, e, ◌>>=◌) (rw enough refl),
          c.all_usable,
          omega (arith, le, c.total_lem),
        )
        | inr (short, lt) ↦ elim c.reached [
          | inl le ↦ absurd (omega (arith, le, lt))
          | inr all ↦ inr (rw (nonzero, found, e, ◌>>=◌) (rw short refl), omega (arith, all, lt))
        ]
      ]
