-- ===== src/Commitments/Sound.antt =====
-- Whatever `findSubsetNCommitments` and `selectCommitments` of
-- nightfall-client/src/services/commitment-storage.mjs answer can be spent: different commitments
-- of the user that cover the value.
use nightfall.Common.{
  ℕ, zero, suc, ◌+◌, ◌-◌, ◌≤◌, ◌≡◌, refl, ap, inl, inr, Option, none, List, [], ◌∷◌, length, true,
  leb, ◌==◌, arith, lt-cases, eq-cases, Bool-cases, lt→ltb, le→ltb, eq→==, ne→==, ==→eq, leb→le,
}
use nightfall.Commitments.Values.{
  Commitment, total, smaller, Ascending, Chosen, keep, skip, Chosen-nil, Chosen-trans,
  smaller-Chosen,
}
use nightfall.Commitments.Subsets.{improves, first_enough, subset_loop, find_subset_n}
use nightfall.Commitments.Filtered.{Ascending-smaller}
use nightfall.Commitments.Two.{Covered, find_subset_two-Covered, find_subset_n_two}

first_enough-Covered :
    (cs : List Commitment) (value : ℕ) → Covered 1 cs value (first_enough cs value)
unfolding first_enough
first_enough-Covered [] value = inl refl
first_enough-Covered (c ∷ cs) value = elim (Bool-cases (leb value c.value)) [
  | inl enough ↦
      rw enough (inr (refl, keep c (Chosen-nil cs), omega (arith, leb→le value c.value enough)))
  | inr short ↦ rw short (elim (first_enough-Covered cs value) [
    | inl e ↦ inl e
    | inr (long, chosen, covers) ↦ inr (long, skip c chosen, covers)
  ])
]

module _ (n value : ℕ) (many : 2 ≤ n) (all : List Commitment)
    (find_rest : List Commitment → ℕ → List Commitment)
    (rest-Covered : (ds : List Commitment) (w : ℕ)
      → Ascending ds
      → Covered (n - 1) ds w (find_rest ds w)) where
  -- A commitment and the rest that was found for it.
  with_rest :
      (c : Commitment) (cs : List Commitment)
      → Ascending cs
      → (length (find_rest cs (value - c.value)) == n - 1) ≡ true
      → Covered n (c ∷ cs) value (c ∷ find_rest cs (value - c.value))
  with_rest c cs up found = elim (rest-Covered cs (value - c.value) up) [
    | inl nothing ↦ absurd (omega (arith, ==→eq _ _ found, ap length nothing))
    | inr (long, chosen, covers) ↦ inr (omega arith, keep c chosen, omega arith)
  ]

  subset_loop-Covered :
      (cs : List Commitment) (change : Option ℕ) (to_use : List Commitment)
      → Ascending cs
      → ((xs : List Commitment) → Chosen xs cs → Chosen xs all)
      → Covered n all value to_use
      → Covered n all value (subset_loop n find_rest value cs change to_use)
  unfolding subset_loop
  subset_loop-Covered [] change to_use up within good = good
  subset_loop-Covered (c ∷ cs) change to_use up within good = elim (lt-cases (length (c ∷ cs)) n) [
    | inl few ↦ rw (lt→ltb _ _ few) good
    | inr long ↦ elim (Bool-cases (length (find_rest cs (value - c.value)) == n - 1)) [
      | inr missed ↦
          rw (le→ltb _ _ long, missed)
            (subset_loop-Covered cs change to_use up.1 (λ xs h. within xs (skip c h)) good)
      | inl found ↦
          let here : Covered n all value (c ∷ find_rest cs (value - c.value)) =
            widen (with_rest c cs up.1 found) in
          elim (Bool-cases (c.value + total (find_rest cs (value - c.value)) == value)) [
            | inl exact ↦ rw (le→ltb _ _ long, found, exact) here
            | inr inexact ↦
                elim (Bool-cases
                  (improves (c.value + total (find_rest cs (value - c.value)) - value) change)) [
                    | inl better ↦
                        rw (le→ltb _ _ long, found, inexact, better)
                          (subset_loop-Covered cs _ _ up.1 (λ xs h. within xs (skip c h)) here)
                    | inr worse ↦
                        rw (le→ltb _ _ long, found, inexact, worse)
                          (subset_loop-Covered cs change to_use up.1 (λ xs h. within xs (skip c h))
                            good)
                  ]
          ]
    ]
  ]
    where
      widen :
          {result : List Commitment} → Covered n (c ∷ cs) value result → Covered n all value result
      widen (inl e) = inl e
      widen {result} (inr (long, chosen, covers)) = inr (long, within result chosen, covers)

Covered-within :
    (n value : ℕ) (cs ds : List Commitment) {result : List Commitment}
    → Chosen cs ds
    → Covered n cs value result
    → Covered n ds value result
Covered-within n value cs ds inside (inl e) = inl e
Covered-within n value cs ds inside (inr (long, chosen, covers)) =
    inr (long, Chosen-trans chosen inside, covers)

pred_suc : (n : ℕ) → suc (suc (suc n)) - 1 ≡ suc (suc n)
pred_suc n = omega arith

find_subset_n_many :
    (n : ℕ) (cs : List Commitment) (value : ℕ)
    → Ascending cs
    → ((ds : List Commitment) (w : ℕ)
        → Ascending ds
        → Covered (suc (suc n)) ds w (find_subset_n (suc (suc n)) ds w))
    → Covered (suc (suc (suc n))) cs value (find_subset_n (suc (suc (suc n))) cs value)
unfolding find_subset_n
find_subset_n_many n cs value up ih = elim (eq-cases value 0) [
  | inl e ↦ rw (eq→== value 0 e) (inl refl)
  | inr ne ↦ elim (lt-cases (length (smaller value cs)) (suc (suc (suc n)))) [
    | inl few ↦ rw (ne→== value 0 ne, lt→ltb _ _ few) (inl refl)
    | inr many ↦
        rw (ne→== value 0 ne, le→ltb _ _ many)
          (Covered-within (suc (suc (suc n))) value (smaller value cs) cs (smaller-Chosen value cs)
            (subset_loop-Covered (suc (suc (suc n))) value (omega arith) (smaller value cs)
              (find_subset_n (suc (suc n))) (λ ds w asc. rw (pred_suc n) (ih ds w asc))
              (smaller value cs) none [] (Ascending-smaller value cs up) (λ xs h. h) (inl refl)))
  ]
]

-- From ascending commitments the search for `n` answers nothing, or `n` different ones of them, in
-- their order, that cover the value.
pub find_subset_n-Covered :
    (n : ℕ) (cs : List Commitment) (value : ℕ)
    → Ascending cs
    → Covered n cs value (find_subset_n n cs value)
find_subset_n-Covered zero cs value up = unfold find_subset_n in inl refl
find_subset_n-Covered (suc zero) cs value up = unfold find_subset_n in first_enough-Covered cs value
find_subset_n-Covered (suc (suc zero)) cs value up =
    rw (find_subset_n_two cs value up) (find_subset_two-Covered cs value up)
find_subset_n-Covered (suc (suc (suc n))) cs value up =
    find_subset_n_many n cs value up (find_subset_n-Covered (suc (suc n)))
