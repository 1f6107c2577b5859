-- ===== src/Commitments/Two.antt =====
-- `findSubsetTwoCommitments` of nightfall-client/src/services/commitment-storage.mjs.
use nightfall.Common.{
  ℕ, ◌+◌, ◌≤◌, ◌<◌, ◌≡◌, ◌≢◌, refl, ◌⊎◌, inl, inr, List, [], ◌∷◌, length, arith, lt-cases, eq-cases,
  lt→ltb, le→ltb, eq→==, ne→==,
}
use nightfall.Commitments.Values.{
  Commitment, total, smaller, Ascending, Chosen, Chosen-trans, smaller-Chosen,
}
use nightfall.Commitments.Subsets.{at, find_subset_two, find_subset_n}
use nightfall.Commitments.Pairs.{IsPair, two_loop-start}
use nightfall.Commitments.Filtered.{Ascending-smaller, smaller-smaller, smaller-at, Chosen-pair}

-- What a search for `n` commitments may answer: nothing, or `n` of the commitments, in their order,
-- that cover the value.
abbrev pub Covered : ℕ → List Commitment → ℕ → List Commitment → Type 0
Covered n cs value result =
    (result ≡ []) ⊎ ((length result ≡ n) × Chosen result cs × (value ≤ total result))

module _ (cs : List Commitment) (value : ℕ) (up : Ascending cs) where
  pub find_subset_two-Covered : Covered 2 cs value (find_subset_two cs value)
  unfolding find_subset_two
  find_subset_two-Covered = elim (eq-cases value 0) [
    | inl e ↦ rw (eq→== value 0 e) (inl refl)
    | inr ne ↦ elim (lt-cases (length (smaller value cs)) 2) [
      | inl few ↦ rw (ne→== value 0 ne, lt→ltb _ _ few) (inl refl)
      | inr many ↦
          rw (ne→== value 0 ne, le→ltb _ _ many)
            (covered
              (two_loop-start (smaller value cs) value (Ascending-smaller value cs up)
                (omega arith)).sound)
    ]
  ]
    where
      covered :
          {result : List Commitment}
          → (result ≡ [])
            ⊎ ((i : ℕ) × (j : ℕ) × IsPair (smaller value cs) value i j
                × (result ≡ at (smaller value cs) i ∷ at (smaller value cs) j ∷ []))
          → Covered 2 cs value result
      covered (inl e) = inl e
      covered (inr (i, j, p, e)) = inr (
          rw e (
            refl,
            Chosen-trans (Chosen-pair (smaller value cs) i j p.ordered p.inside)
                (smaller-Chosen value cs),
            omega (arith, p.enough),
          ))

  -- Among ascending commitments, if two different ones below the value cover it, the search for two
  -- finds some that cover it, and their sum is at most that of these two.
  pub find_subset_two-best :
      (i j : ℕ)
      → i < j
      → j < length cs
      → (at cs i).value < value
      → (at cs j).value < value
      → value ≤ (at cs i).value + (at cs j).value
      → (value ≤ total (find_subset_two cs value))
        × (total (find_subset_two cs value) ≤ (at cs i).value + (at cs j).value)
        × (find_subset_two cs value ≢ [])
  unfolding find_subset_two
  find_subset_two-best i j lt inside low_i low_j enough =
      let (same_i, in_i) = smaller-at value cs i up (omega arith) low_i in
      let (same_j, in_j) = smaller-at value cs j up inside low_j in
      let best =
        (two_loop-start (smaller value cs) value (Ascending-smaller value cs up) (omega arith)).best
          i j (record { ordered = lt; inside = in_j; enough = rw (same_i, same_j) enough }) in
      rw (ne→== value 0 (omega arith), le→ltb _ _ (two_of in_j lt)) (rw (same_i, same_j) at best)
    where
      two_of : {a b n : ℕ} → b < n → a < b → 2 ≤ n
      two_of h k = omega arith

  -- Asked for two, the general search gives the same answer.
  pub find_subset_n_two : find_subset_n 2 cs value ≡ find_subset_two cs value
  unfolding find_subset_n find_subset_two
  find_subset_n_two = elim (eq-cases value 0) [
    | inl e ↦ rw (eq→== value 0 e)
    | inr ne ↦ elim (lt-cases (length (smaller value cs)) 2) [
      | inl few ↦ rw (ne→== value 0 ne, lt→ltb _ _ few)
      | inr many ↦ rw (ne→== value 0 ne, le→ltb _ _ many, smaller-smaller value cs, le→ltb _ _ many)
    ]
  ]
