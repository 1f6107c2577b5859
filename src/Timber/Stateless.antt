-- ===== src/Timber/Stateless.antt =====
-- The operations of common-files/classes/timber.mjs that work without the tree: `frontierToTree`,
-- `insertSiblingPath`, `statelessUpdate`, `statelessSiblingPath` and
-- `statelessIncrementSiblingPath`. `Number(i)` of an index is the index.
use nightfall.Common.{
  ℕ, zero, suc, ◌+◌, ◌-◌, ◌/◌, ◌%◌, ◌^◌, none, some, List, [], ◌∷◌, ◌++◌, map, length, take, drop,
  get_elem?, false, ◌==◌, ltb, leb, ◌||◌, if◌then◌else◌, Result, ok, throws, ◌>>=◌,
}
use nightfall.Timber.Tree.{
  Root, Digit, d0, d1, Tree, leaf, HashType, Error, undefined_value, out_of_fuel, zero_value,
  insert_leaf_at, safe_insert_leaf_at, Side, left, right, Sibling, SiblingPath, hash_tree,
  move_down,
}
use nightfall.Timber.Path.{to_binary, pad_start, path_to, slice_to}
use nightfall.Timber.Frontier.{floor_log2, ceil_log2, keys}
use nightfall.Timber.Object.{Timber, new_timber, empty_timber, insert_leaves, get_sibling_path}
use nightfall.Timber.Batch.{slot_array, odd_index, batch_leaves}
use nightfall.Timber.Order.{insert_batches}

-- The path of the frontier's subtree at depth `i`: the last left one.
unfoldable pub frontier_path : ℕ → ℕ → ℕ → List Digit
unfolding to_binary pad_start
frontier_path height i slot =
    if slot % 2 == 0
    then pad_start (height - i) d0 (to_binary (slot - 2))
    else pad_start (height - i) d0 (to_binary (slot - 1))

-- The `reduce` of `frontierToTree`, from the depth `i` on.
unfoldable pub insert_frontier : ℕ → ℕ → ℕ → Tree → List ℕ → Tree
unfolding frontier_path insert_leaf_at
insert_frontier height leaf_count i tree [] = tree
insert_frontier height leaf_count i tree (v ∷ frontier) =
    insert_frontier height leaf_count (suc i)
      (insert_leaf_at v tree (frontier_path height i (leaf_count / 2 ^ i))) frontier

unfoldable pub frontier_to_tree : Timber → ℕ → Tree
unfolding insert_frontier
frontier_to_tree timber height =
    if length timber.frontier == 0
    then leaf zero_value
    else insert_frontier height timber.leaf_count 0 timber.tree timber.frontier

abbrev pub side_digit : Side → Digit
side_digit left = d0
side_digit right = d1

-- The `reduce` of `insertSiblingPath` over the siblings, from the level `idx` on.
unfoldable pub insert_siblings : ℕ → List Digit → ℕ → Tree → List Sibling → Tree
unfolding slice_to safe_insert_leaf_at
insert_siblings height path_to_index idx tree [] = tree
insert_siblings height path_to_index idx tree (s ∷ path) =
    insert_siblings height path_to_index (suc idx)
      (safe_insert_leaf_at s.value tree
        (slice_to path_to_index height (idx + 1) ++ side_digit s.dir ∷ []))
      path

unfoldable pub insert_sibling_path : Tree → SiblingPath → ℕ → ℕ → ℕ → Tree
unfolding insert_siblings path_to safe_insert_leaf_at
insert_sibling_path tree sibling_path index value height =
    let path_to_index = path_to height index in
    insert_siblings height path_to_index 0 (safe_insert_leaf_at value tree path_to_index)
      sibling_path.path

-- The fields of a `Timber` that `statelessUpdate` reads and computes.
pub record Snapshot : Type 0 where
  pub root : Root
  pub frontier : List ℕ
  pub leaf_count : ℕ

abbrev pub snapshot : Timber → Snapshot
snapshot t = record { root = t.root; frontier = t.frontier; leaf_count = t.leaf_count }

-- An array access; out of range it is `undefined`, which no hash takes.
abbrev pub entry : List ℕ → ℕ → Result Error ℕ
entry xs i = elim (get_elem? xs i) [ none ↦ throws undefined_value | some x ↦ ok x ]

-- `filter(f => f !== 0).length`
abbrev pub count_nonzero : List ℕ → ℕ
count_nonzero [] = 0
count_nonzero (x ∷ xs) = if x == 0 then count_nonzero xs else suc (count_nonzero xs)

module _ (concatenate_then_hash : HashType → ℕ → ℕ → ℕ) where
  -- The loop that pads the subtree's frontier: `rounds` more entries, the first at index `i`.
  unfoldable pub pad_frontier : HashType → List ℕ → ℕ → ℕ → List ℕ → Result Error (List ℕ)
  pad_frontier ht frontier zero i padded = ok padded
  pad_frontier ht frontier (suc rounds) i padded = do
    a ← entry frontier (i - 1)
    b ← entry padded (i - 1)
    pad_frontier ht frontier rounds (suc i) (padded ++ concatenate_then_hash ht a b ∷ [])

  -- The loop that chooses the final frontier.
  unfoldable pub choose_frontier : List ℕ → List ℕ → ℕ → List ℕ → List ℕ → Result Error (List ℕ)
  choose_frontier frontier padded i (current ∷ currents) (sub ∷ subs) = do
    point ←
        (if current == 0
          then entry padded i
          else if sub == 0
          then entry frontier i
          else if current % 2 == 0
          then entry padded i
          else entry frontier i)
    rest ← choose_frontier frontier padded (suc i) currents subs
    ok (point ∷ rest)
  choose_frontier frontier padded i [] subs = ok []
  choose_frontier frontier padded i (current ∷ currents) [] = ok []

  -- The loop that climbs from the subtree to the height of the frontier.
  unfoldable pub climb_frontier : HashType → ℕ → List ℕ → ℕ → ℕ → ℕ → Result Error ℕ
  climb_frontier ht leaf_count frontier zero i root = ok root
  climb_frontier ht leaf_count frontier (suc rounds) i root = do
    point ← entry frontier i
    climb_frontier ht leaf_count frontier rounds (suc i) (
        if leaf_count / 2 ^ i % 2 == 0
        then concatenate_then_hash ht root zero_value
        else if root == point
        then concatenate_then_hash ht root zero_value
        else concatenate_then_hash ht point root)

  -- The loop that climbs on to the full height.
  unfoldable pub climb_zeros : HashType → ℕ → ℕ → ℕ
  climb_zeros ht zero root = root
  climb_zeros ht (suc rounds) root =
      climb_zeros ht rounds (concatenate_then_hash ht root zero_value)

  -- The end of `statelessUpdate`: the leaves are added as one subtree.
  unfoldable pub add_sub_tree : Snapshot → List ℕ → HashType → ℕ → Result Error Snapshot
  unfolding slot_array empty_timber insert_leaves pad_frontier choose_frontier climb_frontier
      climb_zeros hash_tree move_down slice_to path_to floor_log2 ceil_log2
  add_sub_tree timber leaves ht height =
      let output_leaf_count = timber.leaf_count + length leaves in
      let output_frontier_length = floor_log2 output_leaf_count + 1 in
      let resulting = slot_array output_frontier_length output_leaf_count in
      let current = slot_array output_frontier_length timber.leaf_count in
      let subs =
        map (λ i. output_leaf_count / 2 ^ i - timber.leaf_count / 2 ^ i)
          (keys output_frontier_length) in
      do
        new_sub_tree ← insert_leaves concatenate_then_hash (empty_timber ht height) leaves
        let n = length new_sub_tree.frontier
        padded ←
            (if ltb n (count_nonzero subs)
              then pad_frontier ht timber.frontier (length subs - n) n new_sub_tree.frontier
              else ok new_sub_tree.frontier)
        final_frontier ← choose_frontier timber.frontier padded 0 current subs
        let tree_height = ceil_log2 new_sub_tree.leaf_count
        let top =
            hash_tree concatenate_then_hash
              (move_down new_sub_tree.tree
                (slice_to (path_to height (new_sub_tree.leaf_count - 1)) height tree_height))
              ht
        root ←
            climb_frontier ht timber.leaf_count timber.frontier
              (length timber.frontier - tree_height) tree_height top
        ok (record {
          root = some (climb_zeros ht (height - length timber.frontier) root);
          frontier = final_frontier;
          leaf_count = timber.leaf_count + length leaves;
        })

  -- The fuel is above the number of leaves, which falls in both recursive calls.
  unfoldable pub stateless_update_from :
      ℕ → Snapshot → List ℕ → HashType → ℕ → Result Error Snapshot
  unfolding empty_timber insert_leaves odd_index add_sub_tree
  stateless_update_from zero timber leaves ht height = throws out_of_fuel
  stateless_update_from (suc fuel) timber leaves ht height =
      if length leaves == 0
      then ok timber
      else if timber.leaf_count == 0
      then (do
        t ← insert_leaves concatenate_then_hash (empty_timber ht height) leaves
        ok (snapshot t))
      else elim (odd_index timber.leaf_count (length leaves)) [
        | none ↦ add_sub_tree timber leaves ht height
        | some i ↦
            stateless_update_from fuel timber (take (2 ^ i) leaves) ht height >>= λ new_timber.
            stateless_update_from fuel new_timber (drop (2 ^ i) leaves) ht height
      ]

  unfoldable pub stateless_update : Snapshot → List ℕ → HashType → ℕ → Result Error Snapshot
  unfolding stateless_update_from
  stateless_update timber leaves ht height =
      stateless_update_from (length leaves + 1) timber leaves ht height

  unfoldable pub stateless_sibling_path :
      Timber → List ℕ → ℕ → HashType → ℕ → Result Error SiblingPath
  unfolding batch_leaves frontier_to_tree new_timber insert_batches get_sibling_path
  stateless_sibling_path timber leaves leaf_index ht height = elim (get_elem? leaves leaf_index) [
    | none ↦ ok (record { is_member = false; path = [] })
    | some leaf_val ↦
        insert_batches concatenate_then_hash
          (new_timber timber.root timber.frontier timber.leaf_count (frontier_to_tree timber height)
            ht height)
          (batch_leaves timber.leaf_count leaves [])
        >>= λ final_tree.
            get_sibling_path concatenate_then_hash final_tree leaf_val
              (some (leaf_index + timber.leaf_count))
  ]

  unfoldable pub stateless_increment_sibling_path :
      Timber → List ℕ → ℕ → ℕ → SiblingPath → HashType → ℕ → Result Error SiblingPath
  unfolding batch_leaves frontier_to_tree insert_sibling_path new_timber insert_batches
      get_sibling_path
  stateless_increment_sibling_path timber leaves leaf_index leaf_value sibling_path ht height =
      if length leaves == 0 || leb timber.leaf_count leaf_index
      then ok sibling_path
      else insert_batches concatenate_then_hash
          (new_timber timber.root timber.frontier timber.leaf_count
            (insert_sibling_path (frontier_to_tree timber height) sibling_path leaf_index leaf_value
              height)
            ht height)
          (batch_leaves timber.leaf_count leaves [])
        >>= λ final_tree.
            get_sibling_path concatenate_then_hash final_tree leaf_value (some leaf_index)
