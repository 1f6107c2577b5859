-- ===== src/Commitments/Selection.antt =====
-- `verifyEnoughCommitments` of nightfall-client/src/services/commitment-storage.mjs finds the least
-- number of commitments that cover a target, and `selectCommitments` then finds some.
use nightfall.Common.{
  ℕ, zero, suc, ◌+◌, ◌-◌, ◌≤◌, ◌<◌, ◌≡◌, ◌≢◌, refl, ap, ◌⊎◌, inl, inr, List, [], ◌∷◌, length, min,
  Bool, arith, eq-cases, eq→==, ne→==,
}
use nightfall.Commitments.Values.{Commitment, total, Ascending, Chosen}
use nightfall.Commitments.Subsets.{
  find_subset_n, subsets_of, nonempty, before, first_ranked, select_commitments,
}
use nightfall.Commitments.Usable.{Sort}
use nightfall.Commitments.Sound.{find_subset_n-Covered}

abbrev pub All : (List Commitment → Type 0) → List (List Commitment) → Type 0
All P [] = Unit {0}
All P (s ∷ ss) = P s × All P ss

-- What `Array.prototype.sort` promises for every comparator: it permutes the elements.
pub record Sorts (sort : Sort) : Type 1 where
  pub keeps_all :
      (cmp : List Commitment → List Commitment → Bool) (P : List Commitment → Type 0)
      (ss : List (List Commitment))
      → All P ss
      → All P (sort cmp ss)
  pub keeps_length :
      (cmp : List Commitment → List Commitment → Bool) (ss : List (List Commitment))
      → length (sort cmp ss) ≡ length ss

-- A choice of between `lo` and `hi` of the commitments that covers the value.
pub record Fits (lo hi : ℕ) (cs : List Commitment) (value : ℕ) (result : List Commitment)
    : Type 0 where
  pub at_least : lo ≤ length result
  pub at_most : length result ≤ hi
  pub chosen : Chosen result cs
  pub covers : value ≤ total result

abbrev Filled : List (List Commitment) → Type 0
Filled [] = ⊥
Filled (s ∷ ss) = (s ≢ []) ⊎ Filled ss

nonempty-pos : (ss : List (List Commitment)) → Filled ss → 0 < length (nonempty ss)
unfolding nonempty
nonempty-pos [] filled = absurd filled
nonempty-pos (s ∷ ss) filled = elim (eq-cases (length s) 0) [
  | inl e ↦
      rw (eq→== _ _ e)
        (nonempty-pos ss (elim filled [ inl h ↦ absurd (h (no_length s e)) | inr h ↦ h ]))
  | inr ne ↦ rw (ne→== _ _ ne) (omega arith)
]
  where
    no_length : (xs : List Commitment) → length xs ≡ 0 → xs ≡ []
    no_length [] h = refl
    no_length (x ∷ xs) h = absurd (omega arith)

module _ (lo hi : ℕ) (cs : List Commitment) (value : ℕ) (up : Ascending cs) where
  abbrev EmptyOrFits : List Commitment → Type 0
  EmptyOrFits s = (s ≡ []) ⊎ Fits lo hi cs value s

  nonempty-All :
      (ss : List (List Commitment)) → All EmptyOrFits ss → All (Fits lo hi cs value) (nonempty ss)
  unfolding nonempty
  nonempty-All [] all = tt
  nonempty-All (s ∷ ss) all = elim (eq-cases (length s) 0) [
    | inl e ↦ rw (eq→== _ _ e) (nonempty-All ss all.1)
    | inr ne ↦ rw (ne→== _ _ ne) (
      elim all.0 [ inl nothing ↦ absurd (ne (ap length nothing)) | inr fits ↦ fits ],
      nonempty-All ss all.1,
    )
  ]

  subset-EmptyOrFits : (i : ℕ) → lo ≤ i → i ≤ hi → EmptyOrFits (find_subset_n i cs value)
  subset-EmptyOrFits i above below = elim (find_subset_n-Covered i cs value up) [
    | inl e ↦ inl e
    | inr (long, chosen, covers) ↦
        inr (record {
          at_least = omega arith;
          at_most = omega arith;
          chosen = chosen;
          covers = covers;
        })
  ]

  subsets_of-All :
      (rounds i : ℕ) (acc : List (List Commitment))
      → lo ≤ i
      → i + rounds ≤ hi + 1
      → All EmptyOrFits acc
      → All EmptyOrFits (subsets_of rounds i cs value acc)
  unfolding subsets_of
  subsets_of-All zero i acc above below all = all
  subsets_of-All (suc rounds) i acc above below all =
      subsets_of-All rounds (suc i) (find_subset_n i cs value ∷ acc) (omega arith) (omega arith)
        (subset-EmptyOrFits i above (omega arith), all)

  subsets_of-Filled :
      (rounds i : ℕ) (acc : List (List Commitment))
      → Filled acc
      → Filled (subsets_of rounds i cs value acc)
  unfolding subsets_of
  subsets_of-Filled zero i acc filled = filled
  subsets_of-Filled (suc rounds) i acc filled =
      subsets_of-Filled rounds (suc i) (find_subset_n i cs value ∷ acc) (inr filled)

first_ranked-All :
    (P : List Commitment → Type 0) (sort : List (List Commitment) → List (List Commitment))
    (ss : List (List Commitment))
    → 0 < length (sort ss)
    → All P (sort ss)
    → P (first_ranked sort ss)
unfolding first_ranked
first_ranked-All P sort ss pos all = head (sort ss) pos all
  where
    head :
        (l : List (List Commitment))
        → 0 < length l
        → All P l
        → P (elim l [ [] ↦ [] | s ∷ rest ↦ s ])
    head [] pos all = absurd (omega arith)
    head (s ∷ l) pos all = all.0

-- For every sort that permutes, if the search for `lo` of ascending commitments finds some, and `lo`
-- is at most `hi` and at most their number, the selection is a choice of between `lo` and `hi` of
-- them that covers the value.
pub select_commitments-Fits :
    (sort : Sort) (cs : List Commitment) (value lo hi : ℕ)
    → Sorts sort
    → Ascending cs
    → lo ≤ length cs
    → lo ≤ hi
    → find_subset_n lo cs value ≢ []
    → Fits lo hi cs value (select_commitments sort cs value lo hi)
unfolding select_commitments
select_commitments-Fits sort cs value lo hi sorts up long le finds =
    let rounds : ℕ = min (length cs) hi + 1 - lo in
    let subsets : List (List Commitment) = subsets_of rounds lo cs value [] in
    first_ranked-All (Fits lo hi cs value) (sort (before value)) (nonempty subsets)
      (omega (
        arith,
        sorts.keeps_length (before value) (nonempty subsets),
        nonempty-pos subsets (filled rounds (omega arith)),
      ))
      (sorts.keeps_all (before value) (Fits lo hi cs value) (nonempty subsets) (
        nonempty-All lo hi cs value up subsets
          (subsets_of-All lo hi cs value up rounds lo [] (omega arith) (omega arith) tt)))
  where
    filled : (rounds : ℕ) → 0 < rounds → Filled (subsets_of rounds lo cs value [])
    filled zero pos = absurd (omega arith)
    filled (suc rounds) pos =
        unfold subsets_of in
        subsets_of-Filled lo hi cs value up rounds (suc lo) (find_subset_n lo cs value ∷ [])
          (inl finds)
