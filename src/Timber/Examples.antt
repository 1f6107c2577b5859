-- ===== src/Timber/Examples.antt =====
-- Tests of the model of common-files/classes/timber.mjs on small trees, and the theorems about it
-- at them.
use nightfall.Common.{
  ◌⊎◌, ◌%◌, ℕ, ◌+◌, ◌*◌, ◌≡◌, ◌≤◌, refl, inl, List, [], ◌∷◌, ◌++◌, length, take, get_elem?, none,
  some, ok, arith, true,
}
use nightfall.Timber.Tree.{
  HashType, poseidon, leaf, branch, hash_tree, left, right, SiblingPath, verify_sibling_path,
}
use nightfall.Timber.Dense.{build}
use nightfall.Timber.Frontier.{calc_frontier, calc_frontier_from}
use nightfall.Timber.Batch.{batch_leaves}
use nightfall.Timber.Object.{
  Timber, empty_timber, insert_leaf, insert_leaves, rollback, get_sibling_path,
}
use nightfall.Timber.Contract.{Holds, calc_frontier_from_total}
use nightfall.Timber.History.{
  Becomes, insert_leaf-Holds, insert_leaves-Holds, rollback-Holds, rollback-insert_leaves,
}
use nightfall.Timber.SiblingPaths.{get_sibling_path-verifies, get_sibling_path-first}
use nightfall.Timber.Binding.{Collide, verify-binds-leaf}
use nightfall.Timber.Order.{
  insert_batches, insert_each, insert_each-eq-insert_leaves, insert_batches-batch_leaves,
}

-- A hash.
abbrev pairing : HashType → ℕ → ℕ → ℕ
pairing ht a b = (a + b) * (a + b) + a

-- The object after the insertion of 5, 6 and 7 into an empty tree of height 3.
abbrev three : Timber
three = record {
  root = some 1105595750;
  tree = branch (branch (branch (leaf 5) (leaf 6)) (branch (leaf 7) (leaf 0))) (leaf 0);
  frontier = 7 ∷ 126 ∷ [];
  leaf_count = 3;
  hash_type = poseidon;
  height = 3;
  width = 8;
}

-- The same after 8 and 9.
abbrev five : Timber
five = record {
  root = some 18626918690;
  tree =
      branch (branch (branch (leaf 5) (leaf 6)) (branch (leaf 7) (leaf 8)))
        (branch (branch (leaf 9) (leaf 0)) (leaf 0));
  frontier = 9 ∷ 126 ∷ 128290 ∷ [];
  leaf_count = 5;
  hash_type = poseidon;
  height = 3;
  width = 8;
}

abbrev leaves : List ℕ
leaves = 5 ∷ 6 ∷ 7 ∷ []

three_runs : insert_leaves pairing (empty_timber poseidon 3) leaves ≡ ok three
unfolding insert_leaves empty_timber
three_runs = refl

five_runs : insert_leaves pairing three (8 ∷ 9 ∷ []) ≡ ok five
unfolding insert_leaves
five_runs = refl

three-Holds : Holds pairing three leaves
unfolding build hash_tree calc_frontier
three-Holds = record {
  tall = omega arith;
  width = refl;
  fits = omega arith;
  count = refl;
  tree = refl;
  root = inl refl;
  frontier = refl;
}

-- The batches of the comment at `batchLeaves`.
batches_run :
    batch_leaves 2 (1 ∷ 2 ∷ 3 ∷ 4 ∷ 5 ∷ 6 ∷ 7 ∷ 8 ∷ 9 ∷ []) []
    ≡ (1 ∷ 2 ∷ []) ∷ (3 ∷ 4 ∷ 5 ∷ 6 ∷ []) ∷ (7 ∷ 8 ∷ 9 ∷ []) ∷ []
unfolding batch_leaves
batches_run = refl

rollback-insert_leaves_example : rollback pairing five 3 ≡ ok three
rollback-insert_leaves_example =
    rollback-insert_leaves pairing three five leaves (8 ∷ 9 ∷ []) three-Holds (λ e. cc e) five_runs

insert_leaf-Holds_example : Becomes pairing three (insert_leaf pairing three 8) (leaves ++ 8 ∷ [])
insert_leaf-Holds_example = insert_leaf-Holds pairing three leaves 8 three-Holds (omega arith)

insert_leaves-Holds_example :
    Becomes pairing three (insert_leaves pairing three (8 ∷ 9 ∷ [])) (leaves ++ 8 ∷ 9 ∷ [])
insert_leaves-Holds_example =
    insert_leaves-Holds pairing three leaves (8 ∷ 9 ∷ []) three-Holds (omega arith)

rollback-Holds_example : Becomes pairing three (rollback pairing three 2) (take 2 leaves)
rollback-Holds_example = rollback-Holds pairing three leaves 2 three-Holds (omega arith)

calc_frontier_from_total_example :
    (points : List ℕ) × (calc_frontier_from pairing 4 (build 3 leaves) 3 3 poseidon ≡ ok points)
calc_frontier_from_total_example =
    calc_frontier_from_total pairing poseidon 4 3 leaves (omega arith) (omega arith) (omega arith)

get_sibling_path-verifies_example :
    (proof : SiblingPath) × (get_sibling_path pairing three 6 (some 1) ≡ ok proof)
    × (proof.is_member ≡ true)
    × (length proof.path ≡ 3)
    × (verify_sibling_path pairing 6 (some 1105595750) proof poseidon ≡ true)
get_sibling_path-verifies_example =
    get_sibling_path-verifies pairing three leaves three-Holds 6 1 refl

get_sibling_path-first_example :
    (j : ℕ) × (j ≤ 2)
    × (get_elem? leaves j ≡ some 7)
    × (get_sibling_path pairing three 7 none ≡ get_sibling_path pairing three 7 (some j))
get_sibling_path-first_example = get_sibling_path-first pairing three leaves three-Holds 7 2 refl

abbrev path_of_six : SiblingPath
path_of_six = record {
  is_member = true;
  path =
      record { dir = left; value = 5 }
      ∷ record { dir = right; value = 56 }
      ∷ record { dir = right; value = 0 }
      ∷ [];
}

path_of_six_runs : get_sibling_path pairing three 6 (some 1) ≡ ok path_of_six
unfolding get_sibling_path
path_of_six_runs = refl

path_of_six_verifies : verify_sibling_path pairing 6 (some 1105595750) path_of_six poseidon ≡ true
unfolding verify_sibling_path
path_of_six_verifies = refl

-- A hash with collisions, as every hash of bounded length has.
abbrev small : HashType → ℕ → ℕ → ℕ
small ht a b = (a + 2 * b) % 97

abbrev three_small : Timber
three_small = record three { root = some 31; frontier = 7 ∷ 17 ∷ [] }

three_small-Holds : Holds small three_small leaves
unfolding build hash_tree calc_frontier
three_small-Holds = record {
  tall = omega arith;
  width = refl;
  fits = omega arith;
  count = refl;
  tree = refl;
  root = inl refl;
  frontier = refl;
}

abbrev small_path : SiblingPath
small_path = record {
  is_member = true;
  path =
      record { dir = left; value = 5 }
      ∷ record { dir = right; value = 7 }
      ∷ record { dir = right; value = 0 }
      ∷ [];
}

small_path_runs : get_sibling_path small three_small 6 (some 1) ≡ ok small_path
unfolding get_sibling_path
small_path_runs = refl

forged_verifies : verify_sibling_path small 103 (some 31) small_path poseidon ≡ true
unfolding verify_sibling_path
forged_verifies = refl

-- The path verifies for a value that is not the leaf's.
verify-binds-leaf_example :
    (◌≡◌ {A = ℕ} 103 6) ⊎ Collide small poseidon 103 6 small_path.path small_path.path
verify-binds-leaf_example =
    verify-binds-leaf small three_small leaves 6 103 1 small_path small_path three_small-Holds refl
      small_path_runs refl forged_verifies

insert_each-eq-insert_leaves_example :
    insert_each pairing three (8 ∷ 9 ∷ []) ≡ insert_leaves pairing three (8 ∷ 9 ∷ [])
insert_each-eq-insert_leaves_example =
    insert_each-eq-insert_leaves pairing three leaves (8 ∷ 9 ∷ []) three-Holds (omega arith)

insert_batches-batch_leaves_example :
    insert_batches pairing three (batch_leaves 3 (8 ∷ 9 ∷ []) [])
    ≡ insert_leaves pairing three (8 ∷ 9 ∷ [])
insert_batches-batch_leaves_example =
    insert_batches-batch_leaves pairing three leaves (8 ∷ 9 ∷ []) three-Holds (omega arith)
