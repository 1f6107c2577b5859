-- ===== src/Commitments/Filtered.antt =====
-- Leaving out the commitments that reach the value, as the searches of
-- nightfall-client/src/services/commitment-storage.mjs do first, on an ascending list.
use nightfall.Common.{
  ℕ, zero, suc, ◌≤◌, ◌<◌, ◌≡◌, refl, ap, inl, inr, List, [], ◌∷◌, length, arith, lt-cases, lt→ltb,
  le→ltb,
}
use nightfall.Commitments.Values.{
  Commitment, smaller, AllFrom, Ascending, Chosen, skip, keep, Chosen-nil,
}
use nightfall.Commitments.Subsets.{at}
use nightfall.Commitments.Pairs.{Ascending-at}

AllFrom-le : (v w : ℕ) (cs : List Commitment) → v ≤ w → AllFrom w cs → AllFrom v cs
AllFrom-le v w [] le all = tt
AllFrom-le v w (c ∷ cs) le all = (omega arith, AllFrom-le v w cs le all.1)

AllFrom-smaller : (v w : ℕ) (cs : List Commitment) → AllFrom v cs → AllFrom v (smaller w cs)
unfolding smaller
AllFrom-smaller v w [] all = tt
AllFrom-smaller v w (c ∷ cs) all = elim (lt-cases c.value w) [
  | inl lt ↦ rw (lt→ltb _ _ lt) (all.0, AllFrom-smaller v w cs all.1)
  | inr le ↦ rw (le→ltb _ _ le) (AllFrom-smaller v w cs all.1)
]

pub Ascending-smaller : (v : ℕ) (cs : List Commitment) → Ascending cs → Ascending (smaller v cs)
unfolding smaller
Ascending-smaller v [] up = tt
Ascending-smaller v (c ∷ cs) up = elim (lt-cases c.value v) [
  | inl lt ↦ rw (lt→ltb _ _ lt) (AllFrom-smaller c.value v cs up.0, Ascending-smaller v cs up.1)
  | inr le ↦ rw (le→ltb _ _ le) (Ascending-smaller v cs up.1)
]

pub smaller-smaller : (v : ℕ) (cs : List Commitment) → smaller v (smaller v cs) ≡ smaller v cs
unfolding smaller
smaller-smaller v [] = refl
smaller-smaller v (c ∷ cs) = elim (lt-cases c.value v) [
  | inl lt ↦ rw (lt→ltb _ _ lt, smaller, lt→ltb _ _ lt, smaller-smaller v cs)
  | inr le ↦ rw (le→ltb _ _ le) (smaller-smaller v cs)
]

-- In an ascending list the commitments that are left in keep their positions.
pub smaller-at :
    (v : ℕ) (cs : List Commitment) (j : ℕ)
    → Ascending cs
    → j < length cs
    → (at cs j).value < v
    → (at (smaller v cs) j ≡ at cs j) × (j < length (smaller v cs))
unfolding smaller
smaller-at v [] j up inside lt = absurd (omega arith)
smaller-at v (c ∷ cs) zero up inside lt = rw (lt→ltb _ _ lt) (refl, omega arith)
smaller-at v (c ∷ cs) (suc j) up inside lt =
    let first : c.value < v =
      omega (arith, Ascending-at (c ∷ cs) 0 (suc j) up (omega arith) inside) in
    let (same, within) = smaller-at v cs j up.1 (omega arith) lt in
    rw (lt→ltb _ _ first) (same, omega arith)

-- Where every commitment is below the value, none is left out.
pub smaller_all :
    (v : ℕ) (cs : List Commitment)
    → Ascending cs
    → ((j : ℕ) → j < length cs → (at cs j).value < v)
    → smaller v cs ≡ cs
unfolding smaller
smaller_all v [] up all = refl
smaller_all v (c ∷ cs) up all =
    rw (lt→ltb _ _ (all 0 (omega arith)))
      (ap (λ ds. c ∷ ds) (smaller_all v cs up.1 (λ j h. all (suc j) (omega arith))))

Chosen-one : (cs : List Commitment) (j : ℕ) → j < length cs → Chosen (at cs j ∷ []) cs
Chosen-one [] j lt = absurd (omega arith)
Chosen-one (c ∷ cs) zero lt = keep c (Chosen-nil cs)
Chosen-one (c ∷ cs) (suc j) lt = skip c (Chosen-one cs j (omega arith))

-- Two positions choose a pair.
pub Chosen-pair :
    (cs : List Commitment) (i j : ℕ) → i < j → j < length cs → Chosen (at cs i ∷ at cs j ∷ []) cs
Chosen-pair [] i j lt inside = absurd (omega arith)
Chosen-pair (c ∷ cs) zero zero lt inside = absurd (omega arith)
Chosen-pair (c ∷ cs) zero (suc j) lt inside = keep c (Chosen-one cs j (omega arith))
Chosen-pair (c ∷ cs) (suc i) zero lt inside = absurd (omega arith)
Chosen-pair (c ∷ cs) (suc i) (suc j) lt inside =
    skip c (Chosen-pair cs i j (omega arith) (omega arith))
