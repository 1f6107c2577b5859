-- ===== src/Timber/FrontierSteps.antt =====
-- How `calcFrontier` of common-files/classes/timber.mjs walks down the tree of a list of leaves:
-- to the smallest subtree that holds them all, and on into its right half.
use nightfall.Common.{
  ℕ, zero, suc, ◌+◌, ◌-◌, ◌/◌, ◌^◌, ◌≤◌, ◌<◌, ◌≡◌, refl, ap, inl, inr, List, [], ◌∷◌, ◌++◌, reverse,
  length, take, drop, replicate, arith, leb, take_all, two-pow-suc, two-pow-pos, true, lt-cases,
  lt→ltb, le→ltb, ne→==, eq→==, ok, ◌>>=◌,
}
use native.Mathlib.Nat.{pow-le-pow_right}
use nightfall.Timber.Tree.{Digit, d0, Tree, leaf, HashType, move_down}
use nightfall.Timber.Path.{path_to, slice_to, pad_start}
use nightfall.Timber.Paths.{bits, bits_left, path_to-eq-bits}
use nightfall.Timber.Dense.{build, build-nil, build-suc}
use nightfall.Timber.Frontier.{
  log2_from, floor_log2, value_of, left_of, right_of, combine_frontiers, perfect_points,
  calc_frontier_from,
}

-- A positive number lies between two powers of two, the lower one at its logarithm.
log2_from_bounds :
    (fuel n : ℕ) → 0 < n → n ≤ fuel → (2 ^ log2_from fuel n ≤ n) × (n < 2 ^ suc (log2_from fuel n))
unfolding log2_from
log2_from_bounds zero n pos le = absurd (omega arith)
log2_from_bounds (suc fuel) n pos le = elim (lt-cases n 2) [
  | inl small ↦ rw (lt→ltb n 2 small) (omega arith)
  | inr big ↦
      let (low, high) = log2_from_bounds fuel (n / 2) (omega arith) (omega arith) in
      rw (le→ltb n 2 big) (
        omega (
          arith,
          low,
          high,
          two-pow-suc (log2_from fuel (n / 2)),
          two-pow-suc (suc (log2_from fuel (n / 2))),
        ))
]

pub floor_log2_bounds :
    (n : ℕ) → 0 < n → (2 ^ floor_log2 n ≤ n) × (n < 2 ^ floor_log2 n + 2 ^ floor_log2 n)
unfolding floor_log2
floor_log2_bounds n pos =
    let (low, high) = log2_from_bounds n n pos (omega arith) in
    (low, omega (arith, high, two-pow-suc (log2_from n n)))

two-pow-lt : (a b : ℕ) → 2 ^ a < 2 ^ b → a < b
two-pow-lt a b lt = elim (lt-cases a b) [
  | inl h ↦ h
  | inr h ↦ absurd (omega (arith, pow-le-pow_right {n = 2} (omega arith) {i = b} {j = a} h))
]

-- The height of the left half is below that of the tree.
pub floor_log2-lt : (h n : ℕ) → 0 < n → n < 2 ^ h → floor_log2 n < h
floor_log2-lt h n pos lt = two-pow-lt (floor_log2 n) h (omega (arith, (floor_log2_bounds n pos).0))

pow_le : (j k : ℕ) → 2 ^ k ≤ 2 ^ (j + k)
pow_le j k = pow-le-pow_right {n = 2} (omega arith) {i = k} {j = j + k} (omega arith)

suc-add : (j k : ℕ) → suc j + k ≡ suc (j + k)
suc-add j k = omega arith

zero-add : (k : ℕ) → 0 + k ≡ k
zero-add k = omega arith

-- A small index in a high tree begins with zeros.
bits_pad : (j k n : ℕ) → n < 2 ^ k → bits (j + k) n ≡ replicate j d0 ++ bits k n
bits_pad zero k n lt = ap (λ m. bits m n) (zero-add k)
bits_pad (suc j) k n lt =
    rw (suc-add j k, bits_left (j + k) n (omega (arith, pow_le j k)))
      (ap (λ ds. d0 ∷ ds) (bits_pad j k n lt))

move_down-leaf : (x : ℕ) (p : List Digit) → move_down (leaf x) p ≡ leaf x
unfolding move_down
move_down-leaf x [] = refl
move_down-leaf x (d ∷ p) = refl

pub move_down_left :
    (j k : ℕ) (xs : List ℕ)
    → length xs ≤ 2 ^ k
    → move_down (build (j + k) xs) (replicate j d0) ≡ build k xs
unfolding move_down
move_down_left zero k xs le = ap (λ m. build m xs) (zero-add k)
move_down_left (suc j) k [] le = rw (build-nil, build-nil k)
move_down_left (suc j) k (x ∷ xs) le =
    rw
      (
        suc-add j k,
        build-suc (j + k) (x ∷ xs) (omega arith),
        take_all (2 ^ (j + k)) (x ∷ xs) (omega (arith, pow_le j k)),
      )
      (move_down_left j k (x ∷ xs) le)

-- The digits of the walk down to the subtree of height `k`.
slice-path :
    (j k n : ℕ) → 0 < k → n < 2 ^ k → slice_to (path_to (j + k) n) (j + k) k ≡ replicate j d0
unfolding slice_to
slice-path j k n pos lt =
    rw
      (
        path_to-eq-bits (j + k) n (omega arith) (omega (arith, pow_le j k)),
        bits_pad j k n lt,
        le→leb k (j + k) (omega arith),
        add_sub j k,
      )
      (take-replicate j (bits k n))
  where
    le→leb : (a b : ℕ) → a ≤ b → leb a b ≡ true
    le→leb a b h = ground arith

    add_sub : (a b : ℕ) → a + b - b ≡ a
    add_sub a b = omega arith

    take-replicate : (m : ℕ) (ds : List Digit) → take m (replicate m d0 ++ ds) ≡ replicate m d0
    take-replicate zero ds = refl
    take-replicate (suc m) ds = ap (λ r. d0 ∷ r) (take-replicate m ds)

root_at :
    (j k : ℕ) (xs : List ℕ)
    → 0 < k
    → 0 < length xs
    → length xs ≤ 2 ^ k
    → move_down (build (j + k) xs) (slice_to (path_to (j + k) (length xs - 1)) (j + k) k)
      ≡ build k xs
root_at j k xs pos some le =
    rw (slice-path j k (length xs - 1) pos (omega arith)) (move_down_left j k xs le)

-- The walk from the root to the smallest subtree that holds all the leaves.
pub move_down-root :
    (h : ℕ) (xs : List ℕ)
    → 0 < length xs
    → length xs < 2 ^ h
    → move_down (build h xs) (slice_to (path_to h (length xs - 1)) h (floor_log2 (length xs) + 1))
      ≡ build (suc (floor_log2 (length xs))) xs
move_down-root h xs pos lt =
    let k : ℕ = suc (floor_log2 (length xs)) in
    let high : h ≡ h - k + k = omega (arith, floor_log2-lt h (length xs) pos lt) in
    let top : floor_log2 (length xs) + 1 ≡ k = omega arith in
    rw (top, high)
      (root_at (h - k) k xs (omega arith) pos (
        omega (arith, (floor_log2_bounds (length xs) pos).1, two-pow-suc (floor_log2 (length xs)))))

add_sub_one : (k : ℕ) → k + 1 - 1 ≡ k
add_sub_one k = omega arith

one_lt : (h : ℕ) → 0 < h → 1 < 2 ^ h
one_lt zero pos = absurd (omega arith)
one_lt (suc h) pos = omega (arith, two-pow-suc h, two-pow-pos h)

down_one : (x n : ℕ) → move_down (build 1 (x ∷ [])) (replicate n d0 ++ d0 ∷ []) ≡ leaf x
unfolding move_down build
down_one x zero = refl
down_one x (suc n) = move_down-leaf x (replicate n d0 ++ d0 ∷ [])

module _ (hash : HashType → ℕ → ℕ → ℕ) (ht : HashType) where
  pub calc-zero :
      (fuel : ℕ) (tree : Tree) (height : ℕ)
      → calc_frontier_from hash (suc fuel) tree 0 height ht ≡ ok []
  unfolding calc_frontier_from
  calc-zero fuel tree height = refl

  -- One leaf is its own frontier.
  pub calc-one :
      (fuel h : ℕ) (x : ℕ)
      → 0 < h
      → calc_frontier_from hash (suc fuel) (build h (x ∷ [])) 1 h ht ≡ ok (x ∷ [])
  unfolding calc_frontier_from floor_log2 pad_start value_of
  calc-one fuel h x pos =
      rw (move_down-root h (x ∷ []) (omega arith) (one_lt h pos), down_one x (h - 1))

  -- A full tree of two leaves or more.
  pub calc-full :
      (fuel h : ℕ) (xs : List ℕ)
      → 1 < length xs
      → length xs ≡ 2 ^ h
      → calc_frontier_from hash (suc fuel) (build h xs) (length xs) h ht
        ≡ ok (perfect_points hash (floor_log2 (length xs)) (build h xs) ht)
  unfolding calc_frontier_from
  calc-full fuel h xs many full = rw (
    ne→== (length xs) 0 (omega arith),
    lt→ltb 1 (length xs) many,
    eq→== (length xs) (2 ^ h) full,
    add_sub_one (floor_log2 (length xs)),
  )

  -- Otherwise the left half is perfect, and the right half is walked.
  pub calc-split :
      (fuel h : ℕ) (xs : List ℕ)
      → 1 < length xs
      → length xs < 2 ^ h
      → let k : ℕ = floor_log2 (length xs) in
        calc_frontier_from hash (suc fuel) (build h xs) (length xs) h ht ≡ (
          calc_frontier_from hash fuel (build k (drop (2 ^ k) xs)) (length xs - 2 ^ k) k ht
          >>= λ points. ok (
              combine_frontiers
                (reverse (perfect_points hash k (build k (take (2 ^ k) xs)) ht))
                points))
  unfolding calc_frontier_from left_of right_of
  calc-split fuel h xs many lt = rw (
    ne→== (length xs) 0 (omega arith),
    lt→ltb 1 (length xs) many,
    ne→== (length xs) (2 ^ h) (omega arith),
    ne→== (length xs) 1 (omega arith),
    move_down-root h xs (omega arith) lt,
    build-suc (floor_log2 (length xs)) xs (omega arith),
    add_sub_one (floor_log2 (length xs)),
  )
