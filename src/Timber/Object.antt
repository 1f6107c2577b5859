-- ===== src/Timber/Object.antt =====
-- The class `Timber` of common-files/classes/timber.mjs: its fields and its methods on one object.
-- A method that throws leaves the object as it was, so a result carries the new object only when
-- the method returns.
use nightfall.Common.{
  ℕ, suc, ◌+◌, ◌-◌, ◌^◌, Option, none, some, List, [], ◌∷◌, ◌++◌, length, ltb, ◌==◌, if◌then◌else◌,
  Result, ok, throws, ◌>>=◌,
}
use nightfall.Timber.Tree.{
  Tree, leaf, HashType, Error, tree_is_full, cannot_insert_leaves, Root, index_outside,
  cannot_rollback, zero_value, insert_leaf_at, SiblingPath, check_membership, reduce_tree,
  hash_tree, prune_right_sub_tree,
}
use mathlib.Core.Bool.{false}
use nightfall.Timber.Path.{path_to}
use nightfall.Timber.Frontier.{calc_frontier}

pub record Timber : Type 0 where
  pub root : Root
  pub tree : Tree
  pub frontier : List ℕ
  pub leaf_count : ℕ
  pub hash_type : HashType
  pub height : ℕ
  pub width : ℕ

-- The constructor.
unfoldable pub new_timber : Root → List ℕ → ℕ → Tree → HashType → ℕ → Timber
new_timber root frontier leaf_count tree hash_type height = record {
  root = root;
  tree = tree;
  frontier = frontier;
  leaf_count = leaf_count;
  hash_type = hash_type;
  height = height;
  width = 2 ^ height;
}

-- `new Timber(...[, , , ,], hashType, height)`: the defaults for the first four, with `none` for the
-- root 0.
unfoldable pub empty_timber : HashType → ℕ → Timber
unfolding new_timber
empty_timber hash_type height = new_timber none [] 0 (leaf zero_value) hash_type height

-- The `reduce` of `insertLeaves`: the values go to the indices from `i` on.
unfoldable pub insert_from : ℕ → ℕ → Tree → List ℕ → Tree
unfolding insert_leaf_at path_to
insert_from height i tree [] = tree
insert_from height i tree (v ∷ vs) =
    insert_from height (suc i) (insert_leaf_at v tree (path_to height i)) vs

-- `toArray`, for a tree that is not empty.
unfoldable pub leaves_of : Tree → List ℕ
unfolding reduce_tree
leaves_of tree = reduce_tree (λ x. x ∷ []) (λ ht a b. a ++ b) HashType.mimc tree

unfoldable pub to_array : Timber → List ℕ
unfolding leaves_of
to_array t = if t.leaf_count == 0 then [] else leaves_of t.tree

-- `findIndex(comm => comm === value)`, with `none` for -1.
unfoldable pub find_index_from : ℕ → ℕ → List ℕ → Option ℕ
find_index_from i v [] = none
find_index_from i v (x ∷ xs) = if x == v then some i else find_index_from (suc i) v xs

unfoldable pub find_index : ℕ → List ℕ → Option ℕ
unfolding find_index_from
find_index v xs = find_index_from 0 v xs

module _ (concatenate_then_hash : HashType → ℕ → ℕ → ℕ) where
  -- The last three assignments of `insertLeaf`, `insertLeaves` and `rollback`.
  unfoldable pub with_tree : Timber → Tree → ℕ → Result Error Timber
  unfolding hash_tree calc_frontier
  with_tree t tree leaf_count = do
    frontier ← calc_frontier concatenate_then_hash tree leaf_count t.height t.hash_type
    ok (record t {
      tree = tree;
      leaf_count = leaf_count;
      root = some (hash_tree concatenate_then_hash tree t.hash_type);
      frontier = frontier;
    })

  unfoldable pub insert_leaf : Timber → ℕ → Result Error Timber
  unfolding insert_leaf_at path_to with_tree
  insert_leaf t v =
      if t.leaf_count == t.width
      then throws tree_is_full
      else with_tree t (insert_leaf_at v t.tree (path_to t.height t.leaf_count)) (t.leaf_count + 1)

  unfoldable pub insert_leaves : Timber → List ℕ → Result Error Timber
  unfolding insert_from with_tree
  insert_leaves t vs =
      if length vs == 0
      then ok t
      else if ltb t.width (t.leaf_count + length vs)
      then throws cannot_insert_leaves
      else with_tree t (insert_from t.height t.leaf_count t.tree vs) (t.leaf_count + length vs)

  unfoldable pub rollback : Timber → ℕ → Result Error Timber
  unfolding prune_right_sub_tree path_to with_tree
  rollback t leaf_count =
      if ltb t.leaf_count leaf_count
      then throws cannot_rollback
      else if leaf_count == t.leaf_count
      then ok t
      else with_tree t
          (if leaf_count == 0
            then leaf zero_value
            else prune_right_sub_tree t.tree (path_to t.height (leaf_count - 1)))
          leaf_count

  -- The end of `getSiblingPath`, once the index is known.
  unfoldable pub sibling_path_at : Timber → ℕ → Option ℕ → Result Error SiblingPath
  unfolding check_membership path_to hash_tree
  sibling_path_at t v none = throws index_outside
  sibling_path_at t v (some index) =
      if ltb t.leaf_count index
      then throws index_outside
      else ok (
          check_membership v t.tree (path_to t.height index) (hash_tree concatenate_then_hash)
            t.hash_type [])

  -- `getSiblingPath`, where `none` is the default index -1.
  unfoldable pub get_sibling_path : Timber → ℕ → Option ℕ → Result Error SiblingPath
  unfolding sibling_path_at to_array find_index
  get_sibling_path t v index =
      if t.leaf_count == 0
      then ok (record { is_member = false; path = [] })
      else sibling_path_at t v (elim index [ none ↦ find_index v (to_array t) | some i ↦ some i ])
