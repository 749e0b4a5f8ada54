-- ===== src/Common/Entries.antt =====
-- The entries of a list by index.
use Prim.Native.Nat.{ℕ, zero, suc, ◌<◌, ◌≤◌}
use mathlib.Core.Path.{◌≡◌, refl, ap, ap₂}
use mathlib.Core.Logic.{◌≢◌}
use mathlib.Core.List.{List, [], ◌∷◌, ◌++◌}
use mathlib.Core.Option.{some}
use native.Mathlib.Omega.{arith}
use sunyata.Common.Lists.{length, get_elem?, take}

module _ {ℓ} {A : Type ℓ} where
  -- `xs[i] = v`, for an index in range.
  abbrev pub set_elem : List A → ℕ → A → List A
  set_elem [] i v = []
  set_elem (x ∷ xs) zero v = v ∷ xs
  set_elem (x ∷ xs) (suc i) v = x ∷ set_elem xs i v

  -- `copy(xs[n:], ys[n:])`
  abbrev pub copy_from : ℕ → List A → List A → List A
  copy_from n [] ys = []
  copy_from n (x ∷ xs) [] = x ∷ xs
  copy_from zero (x ∷ xs) (y ∷ ys) = y ∷ copy_from zero xs ys
  copy_from (suc n) (x ∷ xs) (y ∷ ys) = x ∷ copy_from n xs ys

  pub length-set_elem : (xs : List A) (i : ℕ) (v : A) → length (set_elem xs i v) ≡ length xs
  length-set_elem [] i v = refl
  length-set_elem (x ∷ xs) zero v = refl
  length-set_elem (x ∷ xs) (suc i) v = ap suc (length-set_elem xs i v)

  pub get_elem?-set_elem :
      (xs : List A) (i : ℕ) (v : A) → i < length xs → get_elem? (set_elem xs i v) i ≡ some v
  get_elem?-set_elem [] i v lt = absurd (omega (arith, lt))
  get_elem?-set_elem (x ∷ xs) zero v lt = refl
  get_elem?-set_elem (x ∷ xs) (suc i) v lt = get_elem?-set_elem xs i v (omega (arith, lt))

  pub get_elem?-set_elem_other :
      (xs : List A) (i j : ℕ) (v : A) → j ≢ i → get_elem? (set_elem xs i v) j ≡ get_elem? xs j
  get_elem?-set_elem_other [] i j v ne = refl
  get_elem?-set_elem_other (x ∷ xs) zero zero v ne = absurd (ne refl)
  get_elem?-set_elem_other (x ∷ xs) zero (suc j) v ne = refl
  get_elem?-set_elem_other (x ∷ xs) (suc i) zero v ne = refl
  get_elem?-set_elem_other (x ∷ xs) (suc i) (suc j) v ne =
      get_elem?-set_elem_other xs i j v (λ e. ne (ap suc e))

  pub get_elem?-append_left :
      (xs ys : List A) (i : ℕ) → i < length xs → get_elem? (xs ++ ys) i ≡ get_elem? xs i
  get_elem?-append_left [] ys i lt = absurd (omega (arith, lt))
  get_elem?-append_left (x ∷ xs) ys zero lt = refl
  get_elem?-append_left (x ∷ xs) ys (suc i) lt = get_elem?-append_left xs ys i (omega (arith, lt))

  pub get_elem?-append_last : (xs : List A) (y : A) → get_elem? (xs ++ y ∷ []) (length xs) ≡ some y
  get_elem?-append_last [] y = refl
  get_elem?-append_last (x ∷ xs) y = get_elem?-append_last xs y

  -- Lists of the same length with the same entries.
  pub get_elem?-injective :
      (xs ys : List A)
      → length xs ≡ length ys
      → ((i : ℕ) → i < length xs → get_elem? xs i ≡ get_elem? ys i)
      → xs ≡ ys
  get_elem?-injective [] [] len same = refl
  get_elem?-injective [] (y ∷ ys) len same = absurd (omega (arith, len))
  get_elem?-injective (x ∷ xs) [] len same = absurd (omega (arith, len))
  get_elem?-injective (x ∷ xs) (y ∷ ys) len same =
      let head : x ≡ y = cc (same 0 (omega arith)) in
      ap₂ (λ z zs. z ∷ zs) head
        (get_elem?-injective xs ys (omega (arith, len)) (λ i lt. same (suc i) (omega (arith, lt))))

  pub length-copy_from : (n : ℕ) (xs ys : List A) → length (copy_from n xs ys) ≡ length xs
  length-copy_from n [] ys = refl
  length-copy_from n (x ∷ xs) [] = refl
  length-copy_from zero (x ∷ xs) (y ∷ ys) = ap suc (length-copy_from zero xs ys)
  length-copy_from (suc n) (x ∷ xs) (y ∷ ys) = ap suc (length-copy_from n xs ys)

  -- Below `n` the old entries stay.
  pub get_elem?-copy_from_low :
      (n : ℕ) (xs ys : List A) (j : ℕ) → j < n → get_elem? (copy_from n xs ys) j ≡ get_elem? xs j
  get_elem?-copy_from_low n [] ys j lt = refl
  get_elem?-copy_from_low n (x ∷ xs) [] j lt = refl
  get_elem?-copy_from_low zero (x ∷ xs) (y ∷ ys) j lt = absurd (omega (arith, lt))
  get_elem?-copy_from_low (suc n) (x ∷ xs) (y ∷ ys) zero lt = refl
  get_elem?-copy_from_low (suc n) (x ∷ xs) (y ∷ ys) (suc j) lt =
      get_elem?-copy_from_low n xs ys j (omega (arith, lt))

  -- From `n` on the entries are copied.
  pub get_elem?-copy_from :
      (n : ℕ) (xs ys : List A) (j : ℕ)
      → length xs ≡ length ys
      → n ≤ j
      → get_elem? (copy_from n xs ys) j ≡ get_elem? ys j
  get_elem?-copy_from n [] [] j len le = refl
  get_elem?-copy_from n [] (y ∷ ys) j len le = absurd (omega (arith, len))
  get_elem?-copy_from n (x ∷ xs) [] j len le = absurd (omega (arith, len))
  get_elem?-copy_from zero (x ∷ xs) (y ∷ ys) zero len le = refl
  get_elem?-copy_from zero (x ∷ xs) (y ∷ ys) (suc j) len le =
      get_elem?-copy_from zero xs ys j (omega (arith, len)) (omega arith)
  get_elem?-copy_from (suc n) (x ∷ xs) (y ∷ ys) zero len le = absurd (omega (arith, le))
  get_elem?-copy_from (suc n) (x ∷ xs) (y ∷ ys) (suc j) len le =
      get_elem?-copy_from n xs ys j (omega (arith, len)) (omega (arith, le))

  pub take-append_left : (n : ℕ) (xs ys : List A) → n ≤ length xs → take n (xs ++ ys) ≡ take n xs
  take-append_left zero [] ys le = refl
  take-append_left zero (x ∷ xs) ys le = refl
  take-append_left (suc n) [] ys le = absurd (omega (arith, le))
  take-append_left (suc n) (x ∷ xs) ys le =
      ap (λ zs. x ∷ zs) (take-append_left n xs ys (omega (arith, le)))
