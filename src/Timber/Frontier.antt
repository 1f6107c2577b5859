-- ===== src/Timber/Frontier.antt =====
-- `combineFrontiers` and `calcFrontier` of common-files/classes/timber.mjs.
use nightfall.Common.{
  ℕ, zero, suc, ◌+◌, ◌-◌, ◌/◌, ◌^◌, List, [], ◌∷◌, ◌++◌, map, reverse, length, drop, ltb, ◌==◌,
  if◌then◌else◌, Result, ok, throws, ◌>>=◌,
}
use nightfall.Timber.Tree.{
  d0, Tree, leaf, branch, HashType, Error, undefined_tree, undefined_value, out_of_fuel, hash_tree,
  move_down,
}
use nightfall.Timber.Path.{path_to, slice_to, pad_start, right_then_left}

-- `Math.floor(Math.log2(n))` of a positive number, on fuel; `n` is enough.
unfoldable pub log2_from : ℕ → ℕ → ℕ
log2_from zero n = 0
log2_from (suc fuel) n = let rest = log2_from fuel (n / 2) in if ltb n 2 then 0 else suc rest

unfoldable pub floor_log2 : ℕ → ℕ
unfolding log2_from
floor_log2 n = log2_from n n

-- `Math.ceil(Math.log2(n))` of a positive number.
unfoldable pub ceil_log2 : ℕ → ℕ
unfolding floor_log2
ceil_log2 n = if ltb n 2 then 0 else suc (floor_log2 (n - 1))

-- `[...Array(n).keys()]`
abbrev pub keys_from : ℕ → ℕ → List ℕ
keys_from i zero = []
keys_from i (suc n) = i ∷ keys_from (suc i) n

abbrev pub keys : ℕ → List ℕ
keys n = keys_from 0 n

unfoldable pub combine_frontiers : List ℕ → List ℕ → List ℕ
combine_frontiers arr1 arr2 =
    if ltb (length arr2) (length arr1)
    then arr2 ++ drop (length arr2) arr1
    else arr1 ++ drop (length arr1) arr2

-- `tree.value`; a branch has none.
unfoldable pub value_of : Tree → Result Error ℕ
value_of (leaf x) = ok x
value_of (branch l r) = throws undefined_value

-- `tree.left`, which `hashTree` then reads, and `tree.right`; a leaf has neither.
unfoldable pub left_of : Tree → Result Error Tree
left_of (leaf x) = throws undefined_tree
left_of (branch l r) = ok l

unfoldable pub right_of : Tree → Result Error Tree
right_of (leaf x) = throws undefined_tree
right_of (branch l r) = ok r

module _ (concatenate_then_hash : HashType → ℕ → ℕ → ℕ) where
  -- A tree's hash, and those of its subtrees at '0', '10', '110', …
  unfoldable pub perfect_points : ℕ → Tree → HashType → List ℕ
  unfolding right_then_left hash_tree move_down
  perfect_points count tree ht =
      hash_tree concatenate_then_hash tree ht
      ∷ map (λ fp. hash_tree concatenate_then_hash (move_down tree fp) ht)
          (map right_then_left (keys count))

  -- The fuel bounds the leaf count, which falls in the recursive call.
  unfoldable pub calc_frontier_from : ℕ → Tree → ℕ → ℕ → HashType → Result Error (List ℕ)
  unfolding floor_log2 path_to slice_to pad_start move_down value_of left_of right_of perfect_points
      combine_frontiers
  calc_frontier_from zero tree leaf_count height ht = throws out_of_fuel
  calc_frontier_from (suc fuel) tree leaf_count height ht =
      let width = if ltb 1 leaf_count then 2 ^ height else 2 in
      let num_frontier_points = floor_log2 leaf_count + 1 in
      let last_index = path_to height (leaf_count - 1) in
      let frontier_tree_root = move_down tree (slice_to last_index height num_frontier_points) in
      let right_leaf_count = leaf_count - 2 ^ floor_log2 leaf_count in
      let split : Result Error (List ℕ) = do
        left ← left_of frontier_tree_root
        right ← right_of frontier_tree_root
        right_points ← calc_frontier_from fuel right right_leaf_count (num_frontier_points - 1) ht
        ok (
            combine_frontiers (reverse (perfect_points (num_frontier_points - 1) left ht))
              right_points)
      in if leaf_count == 0
        then ok []
        else if leaf_count == width
        then ok (perfect_points (num_frontier_points - 1) tree ht)
        else if leaf_count == 1
        then (do
          value ← value_of (move_down frontier_tree_root (pad_start height d0 (d0 ∷ [])))
          ok (value ∷ []))
        else split

  unfoldable pub calc_frontier : Tree → ℕ → ℕ → HashType → Result Error (List ℕ)
  unfolding calc_frontier_from
  calc_frontier tree leaf_count height ht =
      calc_frontier_from (leaf_count + 1) tree leaf_count height ht
