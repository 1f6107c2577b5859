-- ===== src/Commitments/Subsets.antt =====
-- `findSubsetTwoCommitments`, `findSubsetNCommitments` and `selectCommitments` of
-- nightfall-client/src/services/commitment-storage.mjs.
use nightfall.Common.{
  ℕ, zero, suc, ◌+◌, ◌-◌, Option, none, some, List, [], ◌∷◌, Bool, true, length, get_elem?, min,
  ltb, leb, ◌==◌, if◌then◌else◌, ◌&&◌,
}
use nightfall.Commitments.Values.{Commitment, total, smaller}

-- `tempChange < change`, where `change` is `Infinity` until a first set is found.
abbrev pub improves : ℕ → Option ℕ → Bool
improves temp_change none = true
improves temp_change (some change) = ltb temp_change change

-- `commitmentsFiltered[i]`; the pointers stay inside the list.
abbrev pub at : List Commitment → ℕ → Commitment
at cs i = elim (get_elem? cs i) [ none ↦ record { id = 0; value = 0 } | some c ↦ c ]

-- The loop of `findSubsetTwoCommitments` with the pointers `lhs` and `rhs`. The fuel bounds their
-- distance.
unfoldable pub two_loop :
    ℕ → List Commitment → ℕ → ℕ → ℕ → Option ℕ → List Commitment → List Commitment
two_loop zero cs value lhs rhs change to_use = to_use
two_loop (suc fuel) cs value lhs rhs change to_use =
    let two_sum = (at cs lhs).value + (at cs rhs).value in
    let pair = at cs lhs ∷ at cs rhs ∷ [] in
    let better = improves (two_sum - value) change in
    let down =
      two_loop fuel cs value lhs (rhs - 1) (if better then some (two_sum - value) else change)
        (if better then pair else to_use) in
    let up = two_loop fuel cs value (lhs + 1) rhs change to_use in
    if ltb lhs rhs
    then (if two_sum == value then pair else if ltb value two_sum then down else up)
    else to_use

unfoldable pub find_subset_two : List Commitment → ℕ → List Commitment
unfolding smaller two_loop
find_subset_two commitments value =
    let filtered = smaller value commitments in
    if value == 0
    then []
    else if ltb (length filtered) 2
    then []
    else two_loop (length filtered) filtered value 0 (length filtered - 1) none []

-- The loop for `N === 1`: the first commitment that is enough.
unfoldable pub first_enough : List Commitment → ℕ → List Commitment
first_enough [] value = []
first_enough (c ∷ cs) value =
    let rest = first_enough cs value in if leb value c.value then c ∷ [] else rest

-- The loop for larger `N` over the positions of the fixed commitment; `find_rest` is the search for
-- the other `N - 1`.
unfoldable pub subset_loop :
    ℕ
    → (List Commitment → ℕ → List Commitment)
    → ℕ
    → List Commitment
    → Option ℕ
    → List Commitment
    → List Commitment
subset_loop n find_rest value [] change to_use = to_use
subset_loop n find_rest value (c ∷ cs) change to_use =
    let subset = find_rest cs (value - c.value) in
    let sum = c.value + total subset in
    let found = length subset == n - 1 in
    let better = found && improves (sum - value) change in
    let rest =
      subset_loop n find_rest value cs (if better then some (sum - value) else change)
        (if better then c ∷ subset else to_use) in
    if ltb (length (c ∷ cs)) n then to_use else if found && sum == value then c ∷ subset else rest

-- `findSubsetNCommitments`. No call asks for none: `minC` and `minFc` are positive.
unfoldable pub find_subset_n : ℕ → List Commitment → ℕ → List Commitment
unfolding smaller find_subset_two first_enough subset_loop
find_subset_n zero commitments value = []
find_subset_n (suc zero) commitments value = first_enough commitments value
find_subset_n (suc (suc zero)) commitments value =
    let filtered = smaller value commitments in
    if value == 0
    then []
    else if ltb (length filtered) 2
    then []
    else find_subset_two filtered value
find_subset_n (suc (suc (suc n))) commitments value =
    let filtered = smaller value commitments in
    let rest = find_subset_n (suc (suc n)) in
    if value == 0
    then []
    else if ltb (length filtered) (suc (suc (suc n)))
    then []
    else subset_loop (suc (suc (suc n))) rest value filtered none []

-- The loop of `selectCommitments`: `rounds` sizes from `i` on, each subset put in front.
unfoldable pub subsets_of :
    ℕ → ℕ → List Commitment → ℕ → List (List Commitment) → List (List Commitment)
unfolding find_subset_n
subsets_of zero i commitments value acc = acc
subsets_of (suc rounds) i commitments value acc =
    subsets_of rounds (suc i) commitments value (find_subset_n i commitments value ∷ acc)

-- `filter(subset => subset.length > 0)`
unfoldable pub nonempty : List (List Commitment) → List (List Commitment)
nonempty [] = []
nonempty (s ∷ ss) = let rest = nonempty ss in if length s == 0 then rest else s ∷ rest

-- The order of `sort`: whether `a` must stand before `b`. The comparator answers 0 where it should
-- be positive, so it is read here by the sign alone: negative, or not.
unfoldable pub before : ℕ → List Commitment → List Commitment → Bool
before value a b = if total a == total b then ltb (length b) (length a) else ltb (total a) (total b)

-- The head of the sorted array. `sort` is JavaScript's, for the comparator `before value`.
unfoldable pub first_ranked :
    (List (List Commitment) → List (List Commitment)) → List (List Commitment) → List Commitment
first_ranked sort subsets = elim (sort subsets) [ [] ↦ [] | s ∷ ss ↦ s ]

unfoldable pub select_commitments :
    ((List Commitment → List Commitment → Bool) → List (List Commitment) → List (List Commitment))
    → List Commitment
    → ℕ
    → ℕ
    → ℕ
    → List Commitment
unfolding subsets_of nonempty before first_ranked
select_commitments sort commitments value min_c max_c =
    first_ranked (sort (before value)) (
      nonempty (subsets_of (min (length commitments) max_c + 1 - min_c) min_c commitments value []))
