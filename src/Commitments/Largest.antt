-- ===== src/Commitments/Largest.antt =====
-- The largest of ascending commitments, and the first that is enough on its own, as in
-- nightfall-client/src/services/commitment-storage.mjs.
use nightfall.Common.{
  ℕ, zero, suc, ◌+◌, ◌≤◌, ◌<◌, ◌≡◌, ◌≢◌, refl, inl, inr, List, [], ◌∷◌, length, ltb, leb,
  if◌then◌else◌, arith, lt-cases, Bool-cases, lt→ltb, le→ltb, leb→lt,
}
use nightfall.Commitments.Values.{Commitment, total, Ascending}
use nightfall.Commitments.Subsets.{at, first_enough}
use nightfall.Commitments.Pairs.{Ascending-at}

-- The sum of the last `k` values: of an ascending list, the `k` largest.
unfoldable pub top : ℕ → List Commitment → ℕ
top k [] = 0
top k (c ∷ cs) = let rest = top k cs in if ltb (length cs) k then total (c ∷ cs) else rest

pub top_all : (k : ℕ) (cs : List Commitment) → length cs ≤ k → top k cs ≡ total cs
unfolding top
top_all k [] le = refl
top_all k (c ∷ cs) le = rw (lt→ltb (length cs) k (omega arith))

pub top_rest :
    (k : ℕ) (c : Commitment) (cs : List Commitment) → k ≤ length cs → top k (c ∷ cs) ≡ top k cs
unfolding top
top_rest k c cs le = rw (le→ltb (length cs) k le)

pub at-le-total : (cs : List Commitment) (j : ℕ) → j < length cs → (at cs j).value ≤ total cs
at-le-total [] j lt = absurd (omega arith)
at-le-total (c ∷ cs) zero lt = omega arith
at-le-total (c ∷ cs) (suc j) lt = omega (arith, at-le-total cs j (omega arith))

pub at-le-top :
    (k : ℕ) (cs : List Commitment) (j : ℕ)
    → Ascending cs
    → j < length cs
    → (at cs j).value ≤ top (suc k) cs
at-le-top k [] j up lt = absurd (omega arith)
at-le-top k (c ∷ cs) j up lt = elim (lt-cases (length cs) (suc k)) [
  | inl few ↦ omega (arith, top_all (suc k) (c ∷ cs) (omega arith), at-le-total (c ∷ cs) j lt)
  | inr many ↦ later j lt many (at-le-top k cs)
]
  where
    later :
        (j : ℕ)
        → j < length (c ∷ cs)
        → suc k ≤ length cs
        → ((i : ℕ) → Ascending cs → i < length cs → (at cs i).value ≤ top (suc k) cs)
        → (at (c ∷ cs) j).value ≤ top (suc k) (c ∷ cs)
    later zero h many ih = omega (
      arith,
      top_rest (suc k) c cs many,
      Ascending-at (c ∷ cs) 0 1 up (omega arith) (omega arith),
      ih 0 up.1 (omega arith),
    )
    later (suc i) h many ih = omega (arith, top_rest (suc k) c cs many, ih i up.1 (omega arith))

pub first_enough_finds :
    (cs : List Commitment) (value : ℕ)
    → 0 < length cs
    → value ≤ top 1 cs
    → first_enough cs value ≢ []
unfolding first_enough
first_enough_finds [] value filled enough = absurd (omega arith)
first_enough_finds (c ∷ cs) value filled enough = elim (Bool-cases (leb value c.value)) [
  | inl yes_c ↦ rw yes_c (λ e. cc)
  | inr not_c ↦ rw not_c (elim (lt-cases 0 (length cs)) [
    | inl more ↦ first_enough_finds cs value more (omega (arith, top_rest 1 c cs more))
    | inr last ↦ absurd (
        omega
          (arith, leb→lt _ _ not_c, top_all 1 (c ∷ cs) (omega arith), total_none cs (omega arith)))
  ])
]
  where
    total_none : (ds : List Commitment) → length ds ≡ 0 → total ds ≡ 0
    total_none [] h = refl
    total_none (d ∷ ds) h = absurd (omega arith)

pub top_two :
    (cs : List Commitment)
    → 2 ≤ length cs
    → (i : ℕ) × (j : ℕ) × (i < j) × (j < length cs) × (top 2 cs ≤ (at cs i).value + (at cs j).value)
top_two [] many = absurd (omega arith)
top_two (c ∷ []) many = absurd (omega arith)
top_two (c ∷ d ∷ []) many =
    (0, 1, omega arith, omega arith, omega (arith, top_all 2 (c ∷ d ∷ []) (omega arith)))
top_two (c ∷ d ∷ e ∷ cs) many =
    let (i, j, lt, inside, le) = top_two (d ∷ e ∷ cs) (omega arith) in
    (
      suc i,
      suc j,
      omega arith,
      omega arith,
      omega (arith, le, top_rest 2 c (d ∷ e ∷ cs) (omega arith)),
    )

-- Once something is found, its change is known.
