-- ===== src/Common/Related.antt =====
-- Two lists of the same length, related entry by entry.
use mathlib.Core.Path.{◌≡◌, refl, subst}
use mathlib.Core.List.{List, [], ◌∷◌, ◌++◌}
use sunyata.Common.Lists.{All}

module _ {A : Type 0} where
  -- Two lists related entry by entry.
  abbrev pub Pairs : (A → A → Type 0) → List A → List A → Type 0
  Pairs R [] [] = Unit
  Pairs R [] (y ∷ ys) = ⊥
  Pairs R (x ∷ xs) [] = ⊥
  Pairs R (x ∷ xs) (y ∷ ys) = R x y × Pairs R xs ys

  pub Pairs-trans :
      (R : A → A → Type 0) (Q : A → A → Type 0) (T : A → A → Type 0)
      → ((a b c : A) → R a b → Q b c → T a c)
      → (xs ys zs : List A) → Pairs R xs ys
      → Pairs Q ys zs
      → Pairs T xs zs
  Pairs-trans R Q T f [] [] [] r q = tt
  Pairs-trans R Q T f [] [] (z ∷ zs) r q = absurd q
  Pairs-trans R Q T f [] (y ∷ ys) zs r q = absurd r
  Pairs-trans R Q T f (x ∷ xs) [] zs r q = absurd r
  Pairs-trans R Q T f (x ∷ xs) (y ∷ ys) [] r q = absurd q
  Pairs-trans R Q T f (x ∷ xs) (y ∷ ys) (z ∷ zs) r q =
      (f x y z r.0 q.0, Pairs-trans R Q T f xs ys zs r.1 q.1)

  pub Pairs-append :
      (R : A → A → Type 0) (xs ys us vs : List A)
      → Pairs R xs us
      → Pairs R ys vs
      → Pairs R (xs ++ ys) (us ++ vs)
  Pairs-append R [] ys [] vs r q = q
  Pairs-append R [] ys (u ∷ us) vs r q = absurd r
  Pairs-append R (x ∷ xs) ys [] vs r q = absurd r
  Pairs-append R (x ∷ xs) ys (u ∷ us) vs r q = (r.0, Pairs-append R xs ys us vs r.1 q)

  -- What the first list satisfies, the second does.
  pub All-Pairs :
      (P : A → Type 0) (R : A → A → Type 0) (Q : A → Type 0)
      → ((a b : A) → P a → R a b → Q b)
      → (xs ys : List A) → All P xs
      → Pairs R xs ys
      → All Q ys
  All-Pairs P R Q f [] [] p r = tt
  All-Pairs P R Q f [] (y ∷ ys) p r = absurd r
  All-Pairs P R Q f (x ∷ xs) [] p r = absurd r
  All-Pairs P R Q f (x ∷ xs) (y ∷ ys) p r = (f x y p.0 r.0, All-Pairs P R Q f xs ys p.1 r.1)

  -- A relation, with what the entries of the first list satisfy.
  pub Pairs-All :
      (P : A → Type 0) (R : A → A → Type 0) (xs ys : List A)
      → All P xs
      → Pairs R xs ys
      → Pairs (λ x y. P x × R x y) xs ys
  Pairs-All P R [] [] p r = tt
  Pairs-All P R [] (y ∷ ys) p r = absurd r
  Pairs-All P R (x ∷ xs) [] p r = absurd r
  Pairs-All P R (x ∷ xs) (y ∷ ys) p r = ((p.0, r.0), Pairs-All P R xs ys p.1 r.1)

  pub Pairs-nil : (R : A → A → Type 0) (xs ys : List A) → Pairs R xs ys → ys ≡ [] → xs ≡ []
  Pairs-nil R [] ys r e = refl
  Pairs-nil R (x ∷ xs) ys r e = absurd (subst (Pairs R (x ∷ xs)) e r)
