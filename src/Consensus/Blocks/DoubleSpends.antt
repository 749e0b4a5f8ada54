-- ===== src/Consensus/Blocks/DoubleSpends.antt =====
-- What noDoubleSpends accepts.
use sunyata.Common.{
  ◌≡◌, ◌≢◌, ◌↔◌, ◌⊎◌, refl, sym, ap, ◌∙◌, inl, inr, Bool, true, false, ◌&&◌, List, [], ◌∷◌, ◌++◌,
  All, All-map, All-zip, Bool-cases, bytes_eq, bytes_eq_sound, bytes_eq_refl, ◌==◌, ==_iff, ==-refl,
}
use sunyata.Common.Outcome.{ok, err, panic, ◌>>=◌}
use sunyata.Types.{ElementId, Input, Transaction, element_id_eq}
use sunyata.Consensus.Errors.{double_spends}
use sunyata.Consensus.Blocks.{is_spent, spend_inputs, spend_all, no_double_spends}

and-true : (a b : Bool) → (a && b) ≡ true → (a ≡ true) × (b ≡ true)
and-true true b h = (refl, h)
and-true false b h = absurd (cc)

same_id : (a b : ElementId) → a.source ≡ b.source → a.index ≡ b.index → a ≡ b
same_id a b p q = λ i. record { source = p i; index = q i }

pub element_id_eq_iff : (a b : ElementId) → (element_id_eq a b ≡ true) ↔ (a ≡ b)
unfolding element_id_eq
element_id_eq_iff a b = (
  λ h.
      let both = and-true (bytes_eq a.source b.source) (a.index == b.index) h in
      same_id a b (bytes_eq_sound a.source b.source both.0) ((==_iff a.index b.index).0 both.1),
  λ e. rw e (rw (bytes_eq_refl b.source, ==-refl b.index) refl),
)

-- The identifiers of a list are pairwise different.
abbrev pub Distinct : List ElementId → Type 0
Distinct [] = Unit
Distinct (x ∷ xs) = All (λ y. x ≢ y) xs × Distinct xs

-- An identifier is none of the list.
abbrev Absent : List ElementId → ElementId → Type 0
Absent spent id = All (λ k. k ≢ id) spent

-- All inputs of the transactions, in order.
abbrev pub all_inputs : List Transaction → List Input
all_inputs [] = []
all_inputs (txn ∷ txns) = txn.inputs ++ all_inputs txns

abbrev pub parent_ids : List Input → List ElementId
parent_ids [] = []
parent_ids (in' ∷ ins) = in'.parent.id ∷ parent_ids ins

is_spent-cases :
    (id : ElementId) (spent : List ElementId)
    → ((is_spent id spent ≡ true) × (¬ (Absent spent id)))
      ⊎ ((is_spent id spent ≡ false) × Absent spent id)
unfolding is_spent
is_spent-cases id [] = inr (refl, tt)
is_spent-cases id (k ∷ ks) = elim (Bool-cases (element_id_eq k id)) [
  | inl e ↦ inl (rw e refl, λ all. all.0 ((element_id_eq_iff k id).0 e))
  | inr e ↦ elim (is_spent-cases id ks) [
    | inl (f, n) ↦ inl (rw (e, f) refl, λ all. n all.1)
    | inr (f, all) ↦
        inr (rw (e, f) refl, (λ same. absurd (cc ((element_id_eq_iff k id).1 same)), all))
  ]
]

-- What is left to spend is distinct, and none of it is spent.
abbrev Spendable : List ElementId → List ElementId → Type 0
Spendable spent ids = Distinct ids × All (Absent spent) ids

none_spent : (ids : List ElementId) → All (Absent []) ids
none_spent [] = tt
none_spent (id ∷ ids) = (tt, none_spent ids)

Spendable-cons :
    (spent : List ElementId) (id : ElementId) (ids : List ElementId)
    → (Absent spent id × Spendable (id ∷ spent) ids) ↔ Spendable spent (id ∷ ids)
Spendable-cons spent id ids = (
  λ (absent, (distinct, others)). (
    (All-map _ _ (λ _ both. both.0) ids others, distinct),
    (absent, All-map _ _ (λ _ both. both.1) ids others),
  ),
  λ ((first, distinct), (absent, others)). (absent, (distinct, All-zip _ _ ids first others)),
)

spend_inputs-cases :
    (spent : List ElementId) (ins : List Input)
    → ((s : List ElementId) × (spend_inputs spent ins ≡ ok s) × Spendable spent (parent_ids ins))
      ⊎ ((spend_inputs spent ins ≡ err double_spends) × (¬ (Spendable spent (parent_ids ins))))
unfolding spend_inputs
spend_inputs-cases spent [] = inl (spent, refl, (tt, tt))
spend_inputs-cases spent (in' ∷ ins) = elim (is_spent-cases in'.parent.id spent) [
  | inl (e, n) ↦ inr (rw e refl, λ s. n s.1.0)
  | inr (e, absent) ↦ elim (spend_inputs-cases (in'.parent.id ∷ spent) ins) [
    | inl (s, d, good) ↦
        inl (s, rw e d, (Spendable-cons spent in'.parent.id (parent_ids ins)).0 (absent, good))
    | inr (d, n) ↦
        inr (rw e d, λ s. n ((Spendable-cons spent in'.parent.id (parent_ids ins)).1 s).1)
  ]
]

spend_inputs-append :
    (spent : List ElementId) (xs ys : List Input)
    → spend_inputs spent (xs ++ ys) ≡ (spend_inputs spent xs >>= λ s. spend_inputs s ys)
unfolding spend_inputs
spend_inputs-append spent [] ys = refl
spend_inputs-append spent (x ∷ xs) ys = elim (Bool-cases (is_spent x.parent.id spent)) [
  | inl e ↦ rw e refl
  | inr e ↦ rw e (spend_inputs-append (x.parent.id ∷ spent) xs ys)
]

spend_all-all_inputs :
    (spent : List ElementId) (txns : List Transaction)
    → spend_all spent txns ≡ spend_inputs spent (all_inputs txns)
unfolding spend_all spend_inputs
spend_all-all_inputs spent [] = refl
spend_all-all_inputs spent (txn ∷ txns) =
    ap (λ f. spend_inputs spent txn.inputs >>= f) (λ i s. spend_all-all_inputs s txns i)
    ∙ sym (spend_inputs-append spent txn.inputs (all_inputs txns))

-- noDoubleSpends accepts a list of transactions exactly when the identifiers of all their inputs
-- are pairwise different, across transactions and within each; it never panics.
pub no_double_spends_iff :
    (txns : List Transaction)
    → ((no_double_spends txns ≡ ok tt) ↔ Distinct (parent_ids (all_inputs txns)))
      × (no_double_spends txns ≢ panic)
unfolding no_double_spends
no_double_spends_iff txns =
    rw (spend_all-all_inputs [] txns) (elim (spend_inputs-cases [] (all_inputs txns)) [
      | inl (s, e, good) ↦ ((λ _. good.0, λ _. rw e refl), λ p. absurd (cc (rw e at p)))
      | inr (e, n) ↦ (
        (λ p. absurd (cc (rw e at p)), λ d. absurd (n (d, none_spent _))),
        λ p. absurd (cc (rw e at p)),
      )
    ])
