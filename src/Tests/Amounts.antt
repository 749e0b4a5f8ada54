-- ===== src/Tests/Amounts.antt =====
-- Amounts and numbers of hashes.
use sunyata.Common.{
  ℕ, ◌+◌, ◌*◌, ◌%◌, ◌^◌, ◌≤◌, ◌<◌, ◌≡◌, ◌⊎◌, ◌↔◌, refl, arith, true, none, some, [], ◌∷◌,
}
use sunyata.Currency.{
  Currency, IsCurrency, units, cmp, less, same, greater, add, sub, mul_64, quo_rem, quo_rem64,
}
use sunyata.Currency.Arithmetic.{cmp_exact, add_exact, sub_exact, mul_64_exact}
use sunyata.Currency.Division.{quo_rem64_exact, quo_rem_exact}
use sunyata.Work.{
  Work, IsWork, hashes, big_endian, hash_requiring_work, work_required_for_hash, meets_target,
}
use sunyata.Work
use sunyata.Work.Arithmetic.{
  work_cmp_exact, work_add_exact, work_sub_exact, work_mul_64_exact, work_div_64_exact,
}
use sunyata.Work.Target.{meets_target_iff}
use sunyata.Types.{BlockId}

-- 2^65 + 7 and 2^64 + 1.
abbrev large : Currency
large = record { lo = 7; hi = 2 }

abbrev divisor : Currency
divisor = record { lo = 1; hi = 1 }

large-IsCurrency : IsCurrency large
large-IsCurrency = record { lo_fits = omega arith; hi_fits = omega arith }

divisor-IsCurrency : IsCurrency divisor
divisor-IsCurrency = record { lo_fits = omega arith; hi_fits = omega arith }

cmp_exact_example :
    ((cmp large divisor ≡ less) × (units large < units divisor))
    ⊎ ((cmp large divisor ≡ same) × (units large ≡ units divisor))
    ⊎ ((cmp large divisor ≡ greater) × (units divisor < units large))
cmp_exact_example = cmp_exact large divisor large-IsCurrency divisor-IsCurrency

add_exact_example :
    ((s : Currency) × (add large divisor ≡ some s)
      × (units s ≡ units large + units divisor)
      × IsCurrency s)
    ⊎ ((add large divisor ≡ none) × (2 ^ 128 ≤ units large + units divisor))
add_exact_example = add_exact large divisor large-IsCurrency divisor-IsCurrency

sub_exact_example :
    ((d : Currency) × (sub large divisor ≡ some d)
      × (units d + units divisor ≡ units large)
      × IsCurrency d)
    ⊎ ((sub large divisor ≡ none) × (units large < units divisor))
sub_exact_example = sub_exact large divisor large-IsCurrency divisor-IsCurrency

mul_64_exact_example :
    ((p : Currency) × (mul_64 large 3 ≡ some p) × (units p ≡ units large * 3) × IsCurrency p)
    ⊎ ((mul_64 large 3 ≡ none) × (2 ^ 128 ≤ units large * 3))
mul_64_exact_example = mul_64_exact large 3 large-IsCurrency (omega arith)

quo_rem64_exact_example :
    ((q : Currency) × (r : ℕ) × (quo_rem64 large 3 ≡ some (q, r))
      × (units q * 3 + r ≡ units large)
      × (r < 3)
      × IsCurrency q)
    ⊎ ((quo_rem64 large 3 ≡ none) × (◌≡◌ {A = ℕ} 3 0))
quo_rem64_exact_example = quo_rem64_exact large 3 large-IsCurrency

quo_rem_exact_example :
    (q : Currency) × (r : Currency) × (quo_rem large divisor ≡ some (q, r))
    × (units q * units divisor + units r ≡ units large)
    × (units r < units divisor)
    × IsCurrency q
    × IsCurrency r
quo_rem_exact_example =
    quo_rem_exact large divisor large-IsCurrency divisor-IsCurrency (omega arith)

abbrev some_work : Work
some_work = record { n0 = 0; n1 = 1; n2 = 2; n3 = 3 }

abbrev less_work : Work
less_work = record { n0 = 0; n1 = 0; n2 = 2; n3 = 4 }

some_work-IsWork : IsWork some_work
some_work-IsWork = omega arith

less_work-IsWork : IsWork less_work
less_work-IsWork = omega arith

work_cmp_exact_example :
    ((Work.cmp less_work some_work ≡ less) × (hashes less_work < hashes some_work))
    ⊎ ((Work.cmp less_work some_work ≡ same) × (hashes less_work ≡ hashes some_work))
    ⊎ ((Work.cmp less_work some_work ≡ greater) × (hashes some_work < hashes less_work))
work_cmp_exact_example = work_cmp_exact less_work some_work less_work-IsWork some_work-IsWork

work_add_exact_example :
    hashes (Work.add some_work less_work) ≡ (hashes some_work + hashes less_work) % 2 ^ 256
work_add_exact_example = work_add_exact some_work less_work some_work-IsWork less_work-IsWork

work_sub_exact_example : hashes (Work.sub some_work less_work) + hashes less_work ≡ hashes some_work
work_sub_exact_example =
    work_sub_exact some_work less_work some_work-IsWork less_work-IsWork (omega arith)

work_mul_64_exact_example : hashes (Work.mul_64 some_work 5) ≡ hashes some_work * 5 % 2 ^ 256
work_mul_64_exact_example = work_mul_64_exact some_work 5 some_work-IsWork (omega arith)

work_div_64_exact_example :
    ((q : Work) × (r : ℕ) × (Work.div_64 some_work 5 ≡ some q)
      × (hashes q * 5 + r ≡ hashes some_work)
      × (r < 5)
      × IsWork q)
    ⊎ ((Work.div_64 some_work 5 ≡ none) × (◌≡◌ {A = ℕ} 5 0))
work_div_64_exact_example = work_div_64_exact some_work 5 some_work-IsWork

abbrev id : BlockId
id =
    0 ∷ 0 ∷ 1 ∷ 0 ∷ 0 ∷ 0 ∷ 0 ∷ 0 ∷ 0 ∷ 0 ∷ 0 ∷ 0 ∷ 0 ∷ 0 ∷ 0 ∷ 0 ∷ 0 ∷ 0 ∷ 0 ∷ 0 ∷ 0 ∷ 0 ∷ 0 ∷ 0
    ∷ 0 ∷ 0 ∷ 0 ∷ 0 ∷ 0 ∷ 0 ∷ 0 ∷ 0 ∷ []

id-nonzero : 0 < big_endian id
unfolding big_endian
id-nonzero = omega arith

meets_target_iff_example :
    (t : BlockId) × (r : Work) × (hash_requiring_work less_work ≡ some t)
    × (work_required_for_hash id ≡ some r)
    × ((meets_target id t ≡ true) ↔ (hashes less_work ≤ hashes r))
meets_target_iff_example =
    meets_target_iff id less_work refl (omega arith) id-nonzero (omega arith) less_work-IsWork
