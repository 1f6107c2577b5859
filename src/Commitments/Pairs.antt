-- ===== src/Commitments/Pairs.antt =====
-- The two pointers of `findSubsetTwoCommitments`, of
-- nightfall-client/src/services/commitment-storage.mjs, find the best pair of an ascending list.
use nightfall.Common.{
  ℕ, zero, suc, ◌+◌, ◌-◌, ◌≤◌, ◌<◌, ◌≡◌, ◌≢◌, refl, ap, ◌∙◌, ◌⊎◌, inl, inr, Option, none, some,
  List, [], ◌∷◌, length, if◌then◌else◌, arith, lt-cases, eq-cases, lt→ltb, le→ltb, eq→==, ne→==,
}
use nightfall.Commitments.Values.{Commitment, total, AllFrom, Ascending}
use nightfall.Commitments.Subsets.{at, improves, two_loop}

AllFrom-at :
    (v : ℕ) (cs : List Commitment) (i : ℕ) → AllFrom v cs → i < length cs → v ≤ (at cs i).value
AllFrom-at v [] i all lt = absurd (omega arith)
AllFrom-at v (c ∷ cs) zero all lt = all.0
AllFrom-at v (c ∷ cs) (suc i) all lt = AllFrom-at v cs i all.1 (omega arith)

-- In an ascending list a later value is not smaller.
pub Ascending-at :
    (cs : List Commitment) (i j : ℕ)
    → Ascending cs
    → i ≤ j
    → j < length cs
    → (at cs i).value ≤ (at cs j).value
Ascending-at [] i j up le lt = absurd (omega arith)
Ascending-at (c ∷ cs) zero zero up le lt = omega arith
Ascending-at (c ∷ cs) zero (suc j) up le lt = AllFrom-at c.value cs j up.0 (omega arith)
Ascending-at (c ∷ cs) (suc i) zero up le lt = absurd (omega arith)
Ascending-at (c ∷ cs) (suc i) (suc j) up le lt =
    Ascending-at cs i j up.1 (omega arith) (omega arith)

-- What has been found with the given change: nothing, or a pair.
abbrev Candidate : List Commitment → ℕ → Option ℕ → List Commitment → Type 0
Candidate cs value none to_use = to_use ≡ []
Candidate cs value (some change) to_use =
    (i : ℕ) × (j : ℕ) × (i < j)
    × (j < length cs)
    × (to_use ≡ at cs i ∷ at cs j ∷ [])
    × ((at cs i).value + (at cs j).value ≡ value + change)

-- The change is at most that of a pair with the sum `s`.
abbrev Covers : ℕ → Option ℕ → ℕ → Type 0
Covers value none s = ⊥
Covers value (some change) s = value + change ≤ s

-- A pair of the list, by its positions.
pub record IsPair (cs : List Commitment) (value : ℕ) (i j : ℕ) : Type 0 where
  pub ordered : i < j
  pub inside : j < length cs
  pub enough : value ≤ (at cs i).value + (at cs j).value

abbrev sum_at : List Commitment → ℕ → ℕ → ℕ
sum_at cs i j = (at cs i).value + (at cs j).value

record Searched (cs : List Commitment) (value l r : ℕ) (change : Option ℕ)
    (to_use : List Commitment) : Type 0 where
  candidate : Candidate cs value change to_use
  outside :
      (i j : ℕ) → IsPair cs value i j → (i < l) ⊎ (r < j) → Covers value change (sum_at cs i j)

-- The answer: nothing or a pair that is enough, and no pair with a smaller sum.
pub record IsBest (cs : List Commitment) (value : ℕ) (result : List Commitment) : Type 0 where
  pub sound :
      (result ≡ []) ⊎ ((i : ℕ) × (j : ℕ) × IsPair cs value i j × (result ≡ at cs i ∷ at cs j ∷ []))
  pub best :
      (i j : ℕ)
      → IsPair cs value i j
      → (value ≤ total result) × (total result ≤ (at cs i).value + (at cs j).value) × (result ≢ [])

total_pair : (c d : Commitment) → total (c ∷ d ∷ []) ≡ c.value + d.value
total_pair c d = omega arith

crossed : (i j l r : ℕ) → i < j → r ≤ l → (i < l) ⊎ (r < j)
crossed i j l r lt le = elim (lt-cases i l) [
  | inl left ↦ inl left
  | inr not_left ↦ inr (omega arith)
]

module _ (cs : List Commitment) (value : ℕ) (up : Ascending cs) where
  exact :
      (l r : ℕ)
      → l < r
      → r < length cs
      → sum_at cs l r ≡ value
      → IsBest cs value (at cs l ∷ at cs r ∷ [])
  exact l r lt inside e = record {
    sound = inr (l, r, record { ordered = lt; inside = inside; enough = omega arith }, refl);
    best = λ i j p. (omega arith, omega (arith, p.enough), λ q. cc);
  }

  finish :
      (l r : ℕ) (change : Option ℕ) (to_use : List Commitment)
      → r ≤ l
      → Searched cs value l r change to_use
      → IsBest cs value to_use
  finish l r none to_use le s = record {
    sound = inl s.candidate;
    best = λ i j p. absurd (s.outside i j p (crossed i j l r p.ordered le));
  }
  finish l r (some change) to_use le s =
      let (i, j, lt, inside, e, sum) = s.candidate in
      record {
        sound = inr (i, j, record { ordered = lt; inside = inside; enough = omega arith }, e);
        best = λ a b p.
            let size : total to_use ≡ (at cs i).value + (at cs j).value =
              ap total e ∙ total_pair (at cs i) (at cs j) in
            let least : value + change ≤ sum_at cs a b =
              s.outside a b p (crossed a b l r p.ordered le) in
            (omega arith, omega arith, λ q. cc (e, q));
      }

  to_right :
      (l r i j : ℕ)
      → l < r
      → r < length cs
      → IsPair cs value i j
      → (i < l) ⊎ (r - 1 < j)
      → ((i < l) ⊎ (r < j)) ⊎ (sum_at cs l r ≤ sum_at cs i j)
  to_right l r i j lt inside p (inl left) = inl (inl left)
  to_right l r i j lt inside p (inr right) = elim (lt-cases i l) [
    | inl left ↦ inl (inl left)
    | inr not_left ↦ inr (
        omega (
          arith,
          Ascending-at cs l i up not_left (omega (arith, p.ordered, p.inside)),
          Ascending-at cs r j up (omega arith) p.inside,
        ))
  ]

  to_left :
      (l r i j : ℕ)
      → l < r
      → r < length cs
      → sum_at cs l r < value
      → IsPair cs value i j
      → (i < l + 1) ⊎ (r < j)
      → (i < l) ⊎ (r < j)
  to_left l r i j lt inside less p (inr right) = inr right
  to_left l r i j lt inside less p (inl left) = elim (lt-cases r j) [
    | inl right ↦ inr right
    | inr not_right ↦ elim (lt-cases i l) [
      | inl old ↦ inl old
      | inr same ↦ absurd (
          omega (
            arith,
            p.enough,
            Ascending-at cs i l up (omega arith) (omega arith),
            Ascending-at cs j r up not_right inside,
          ))
    ]
  ]

  step_down :
      (l r : ℕ) (change : Option ℕ) (to_use : List Commitment)
      → l < r
      → r < length cs
      → value < sum_at cs l r
      → Searched cs value l r change to_use
      → let better = improves (sum_at cs l r - value) change in
        Searched cs value l
          (r - 1)
          (if better then some (sum_at cs l r - value) else change)
          (if better then at cs l ∷ at cs r ∷ [] else to_use)
  step_down l r none to_use lt inside more s = record {
    candidate = (l, r, lt, inside, refl, omega arith);
    outside = λ i j p o. elim (to_right l r i j lt inside p o) [
      | inl old ↦ absurd (s.outside i j p old)
      | inr larger ↦ omega arith
    ];
  }
  step_down l r (some change) to_use lt inside more s =
      elim (lt-cases (sum_at cs l r - value) change) [
        | inl less ↦ rw (lt→ltb _ _ less) (record {
          candidate = (l, r, lt, inside, refl, omega arith);
          outside = λ i j p o. elim (to_right l r i j lt inside p o) [
            | inl old ↦ omega (arith, s.outside i j p old)
            | inr larger ↦ omega arith
          ];
        })
        | inr not_less ↦ rw (le→ltb _ _ not_less) (record {
          candidate = s.candidate;
          outside = λ i j p o. elim (to_right l r i j lt inside p o) [
            | inl old ↦ s.outside i j p old
            | inr larger ↦ omega arith
          ];
        })
      ]

  step_up :
      (l r : ℕ) (change : Option ℕ) (to_use : List Commitment)
      → l < r
      → r < length cs
      → sum_at cs l r < value
      → Searched cs value l r change to_use
      → Searched cs value (l + 1) r change to_use
  step_up l r change to_use lt inside less s = record {
    candidate = s.candidate;
    outside = λ i j p o. s.outside i j p (to_left l r i j lt inside less p o);
  }

  -- From pointers inside the list, the loop with fuel above their distance ends at the best pair.
  two_loop-IsBest :
      (fuel l r : ℕ) (change : Option ℕ) (to_use : List Commitment)
      → r < length cs
      → r - l < fuel
      → Searched cs value l r change to_use
      → IsBest cs value (two_loop fuel cs value l r change to_use)
  unfolding two_loop
  two_loop-IsBest zero l r change to_use inside enough s = absurd (omega arith)
  two_loop-IsBest (suc fuel) l r change to_use inside enough s = elim (lt-cases l r) [
    | inr stop ↦ rw (le→ltb l r stop) (finish l r change to_use stop s)
    | inl lt ↦ elim (eq-cases (sum_at cs l r) value) [
      | inl e ↦ rw (lt→ltb l r lt, eq→== _ _ e) (exact l r lt inside e)
      | inr ne ↦ elim (lt-cases value (sum_at cs l r)) [
        | inl more ↦
            rw (lt→ltb l r lt, ne→== _ _ ne, lt→ltb _ _ more)
              (two_loop-IsBest fuel l (r - 1)
                (if improves (sum_at cs l r - value) change
                  then some (sum_at cs l r - value)
                  else change)
                (if improves (sum_at cs l r - value) change then at cs l ∷ at cs r ∷ [] else to_use)
                (omega arith) (omega arith) (step_down l r change to_use lt inside more s))
        | inr less ↦
            rw (lt→ltb l r lt, ne→== _ _ ne, le→ltb _ _ less)
              (two_loop-IsBest fuel (l + 1) r change to_use inside (omega arith)
                (step_up l r change to_use lt inside (omega arith) s))
      ]
    ]
  ]

  pub two_loop-start :
      1 < length cs → IsBest cs value (two_loop (length cs) cs value 0 (length cs - 1) none [])
  two_loop-start many =
      two_loop-IsBest (length cs) 0 (length cs - 1) none [] (omega arith) (omega arith) (record {
        candidate = refl;
        outside =
            λ i j p o. absurd (elim o [ inl h ↦ omega arith | inr h ↦ omega (arith, p.inside) ]);
      })
