-- ===== src/Commitments/Counting.antt =====
-- `verifyEnoughCommitments` of nightfall-client/src/services/commitment-storage.mjs sorts the commitments
-- and finds the least number of them that covers a target.
use nightfall.Common.{
  ℕ, zero, suc, ◌+◌, ◌-◌, ◌≤◌, ◌<◌, ◌≡◌, refl, ◌∙◌, subst, ◌⊎◌, inl, inr, List, [], ◌∷◌, length,
  leb, arith, lt-cases, Bool-cases, leb→le, leb→lt,
}
use nightfall.Commitments.Values.{Commitment, AllFrom, Ascending}
use nightfall.Commitments.Subsets.{at}
use nightfall.Commitments.Usable.{insert_by_value, sort_by_value, min_loop}
use nightfall.Commitments.Largest.{top, top_all, top_rest}

AllFrom-insert :
    (v : ℕ) (c : Commitment) (cs : List Commitment)
    → v ≤ c.value
    → AllFrom v cs
    → AllFrom v (insert_by_value c cs)
unfolding insert_by_value
AllFrom-insert v c [] le all = (le, tt)
AllFrom-insert v c (d ∷ ds) le all = elim (Bool-cases (leb c.value d.value)) [
  | inl first ↦ rw first (le, all)
  | inr later ↦ rw later (all.0, AllFrom-insert v c ds le all.1)
]

AllFrom-le : (v w : ℕ) (cs : List Commitment) → v ≤ w → AllFrom w cs → AllFrom v cs
AllFrom-le v w [] le all = tt
AllFrom-le v w (c ∷ cs) le all = (omega arith, AllFrom-le v w cs le all.1)

Ascending-insert :
    (c : Commitment) (cs : List Commitment) → Ascending cs → Ascending (insert_by_value c cs)
unfolding insert_by_value
Ascending-insert c [] up = (tt, tt)
Ascending-insert c (d ∷ ds) up = elim (Bool-cases (leb c.value d.value)) [
  | inl first ↦
      rw first ((leb→le _ _ first, AllFrom-le c.value d.value ds (leb→le _ _ first) up.0), up)
  | inr later ↦ rw later (
    AllFrom-insert d.value c ds (omega (arith, leb→lt _ _ later)) up.0,
    Ascending-insert c ds up.1,
  )
]

pub sort_by_value-Ascending : (cs : List Commitment) → Ascending (sort_by_value cs)
unfolding sort_by_value
sort_by_value-Ascending [] = tt
sort_by_value-Ascending (c ∷ cs) =
    Ascending-insert c (sort_by_value cs) (sort_by_value-Ascending cs)

-- One more of the highest commitments.
top-suc :
    (k : ℕ) (cs : List Commitment)
    → k < length cs
    → top (suc k) cs ≡ top k cs + (at cs (length cs - suc k)).value
top-suc k [] lt = absurd (omega arith)
top-suc k (c ∷ cs) lt = elim (lt-cases k (length cs)) [
  | inl inside ↦
      let shifted : length (c ∷ cs) - suc k ≡ suc (length cs - suc k) = omega arith in
      rw (shifted, top_rest (suc k) c cs inside, top_rest k c cs (omega arith))
        (top-suc k cs inside)
  | inr last ↦
      let front : length (c ∷ cs) - suc k ≡ 0 = omega arith in
      rw front (
        omega (
          arith,
          top_all (suc k) (c ∷ cs) (omega arith),
          top_rest k c cs (omega arith),
          top_all k cs last,
        ))
]

-- What the loop answers from `k` commitments on, which do not cover the target.
abbrev pub LeastFrom : ℕ → ℕ → List Commitment → ℕ → ℕ → Type 0
LeastFrom k rounds cs target m =
    ((m ≡ 0) × (top (k + rounds) cs < target))
    ⊎ ((k < m) × (m ≤ k + rounds) × (target ≤ top m cs) × (top (m - 1) cs < target))

min_loop-LeastFrom :
    (rounds k : ℕ) (cs : List Commitment) (target : ℕ)
    → k + rounds ≤ length cs
    → top k cs < target
    → LeastFrom k rounds cs target (min_loop rounds (suc k) (top k cs) cs target)
unfolding min_loop
min_loop-LeastFrom zero k cs target fits short = inl (refl, rw (add_zero k) short)
  where
    add_zero : (i : ℕ) → i + 0 ≡ i
    add_zero i = omega arith
min_loop-LeastFrom (suc rounds) k cs target fits short =
    elim (Bool-cases (leb target (top k cs + (at cs (length cs - suc k)).value))) [
      | inl enough ↦ rw enough (
          inr (
            omega arith,
            omega arith,
            omega (arith, leb→le _ _ enough, top-suc k cs (omega arith)),
            rw (pred_of k) short,
          ))
      | inr more ↦
          let next : top (suc k) cs ≡ top k cs + (at cs (length cs - suc k)).value =
            top-suc k cs (omega arith) in
          let still : top (suc k) cs < target = omega (arith, leb→lt _ _ more) in
          rw (more, ← next)
            (widen (min_loop rounds (suc (suc k)) (top (suc k) cs) cs target)
              (min_loop-LeastFrom rounds (suc k) cs target (omega arith) still))
    ]
  where
    pred_of : (i : ℕ) → suc i - 1 ≡ i
    pred_of i = omega arith

    add_suc : (i j : ℕ) → suc i + j ≡ i + suc j
    add_suc i j = omega arith

    widen : (m : ℕ) → LeastFrom (suc k) rounds cs target m → LeastFrom k (suc rounds) cs target m
    widen m (inl (e, h)) = inl (e, subst (λ i. top i cs < target) (add_suc k rounds) h)
    widen m (inr (a, b, c, d)) = inr (omega arith, omega arith, c, d)

-- For a positive target and at most as many rounds as there are commitments, the loop answers the
-- least number of the largest commitments that covers the target, or 0 and then no such number
-- within the rounds covers it.
pub min_loop-least :
    (most : ℕ) (cs : List Commitment) (target : ℕ)
    → most ≤ length cs
    → 0 < target
    → LeastFrom 0 most cs target (min_loop most 1 0 cs target)
min_loop-least most cs target fits pos =
    let start : top 0 cs ≡ 0 = top_zero cs in
    subst (λ s. LeastFrom 0 most cs target (min_loop most 1 s cs target)) start
      (min_loop-LeastFrom most 0 cs target (omega arith) (omega arith))
  where
    top_zero : (ds : List Commitment) → top 0 ds ≡ 0
    top_zero [] = unfold top in refl
    top_zero (d ∷ ds) = top_rest 0 d ds (omega arith) ∙ top_zero ds
