-- ===== src/Timber/Tree.antt =====
-- The helpers of common-files/classes/timber.mjs over the tree itself: `Branch` and `Leaf`, the
-- insertions along a path, the membership walk, the folds, `moveDown` and `pruneRightSubTree`.
use nightfall.Common.{
  Option, none, some, ℕ, Bool, true, false, List, [], ◌∷◌, foldl, length, ◌==◌, if◌then◌else◌,
}

-- A digit of a path string, `'0'` or `'1'`.
pub data Digit : Type 0 where
  d0 d1 : Digit

pub data Tree : Type 0 where
  leaf : ℕ → Tree
  branch : Tree → Tree → Tree

pub data HashType : Type 0 where
  mimc sha256 keccak256 poseidon : HashType

-- What the methods throw. The last two stand for JavaScript's own: a property of `undefined` is
-- read, or a value that the tree does not hold is used.
pub data Error : Type 0 where
  tree_is_full cannot_insert_leaves index_outside cannot_rollback undefined_tree : Error
  undefined_value out_of_fuel : Error

-- The zero commitment.
abbrev pub zero_value : ℕ
zero_value = 0

-- `_insertLeaf`
unfoldable pub insert_leaf_at : ℕ → Tree → List Digit → Tree
insert_leaf_at v t [] = leaf v
insert_leaf_at v (branch l r) (d0 ∷ p) = branch (insert_leaf_at v l p) r
insert_leaf_at v (branch l r) (d1 ∷ p) = branch l (insert_leaf_at v r p)
insert_leaf_at v (leaf x) (d0 ∷ p) = branch (insert_leaf_at v (leaf zero_value) p) (leaf zero_value)
insert_leaf_at v (leaf x) (d1 ∷ p) = branch (leaf zero_value) (insert_leaf_at v (leaf zero_value) p)

-- `_safeInsertLeaf`: a branch has no `value`, so it is kept at the end of the path.
unfoldable pub safe_insert_leaf_at : ℕ → Tree → List Digit → Tree
safe_insert_leaf_at v (branch l r) [] = branch l r
safe_insert_leaf_at v (leaf x) [] = if x == zero_value then leaf v else leaf x
safe_insert_leaf_at v (branch l r) (d0 ∷ p) = branch (safe_insert_leaf_at v l p) r
safe_insert_leaf_at v (branch l r) (d1 ∷ p) = branch l (safe_insert_leaf_at v r p)
safe_insert_leaf_at v (leaf x) (d0 ∷ p) =
    branch (safe_insert_leaf_at v (leaf zero_value) p) (leaf zero_value)
safe_insert_leaf_at v (leaf x) (d1 ∷ p) =
    branch (leaf zero_value) (safe_insert_leaf_at v (leaf zero_value) p)

-- The side on which a sibling stands.
pub data Side : Type 0 where
  left right : Side

pub record Sibling : Type 0 where
  pub dir : Side
  pub value : ℕ

pub record SiblingPath : Type 0 where
  pub is_member : Bool
  pub path : List Sibling

-- `_checkMembership`: past the end of the path `path[0] === '0'` is false, so the walk goes right.
unfoldable pub check_membership :
    ℕ → Tree → List Digit → (Tree → HashType → ℕ) → HashType → List Sibling → SiblingPath
check_membership v (leaf x) p f ht acc =
    if x == v
    then record { is_member = true; path = acc }
    else record { is_member = false; path = [] }
check_membership v (branch l r) (d0 ∷ p) f ht acc =
    check_membership v l p f ht (record { dir = right; value = f r ht } ∷ acc)
check_membership v (branch l r) (d1 ∷ p) f ht acc =
    check_membership v r p f ht (record { dir = left; value = f l ht } ∷ acc)
check_membership v (branch l r) [] f ht acc =
    check_membership v r [] f ht (record { dir = left; value = f l ht } ∷ acc)

unfoldable pub map_tree : (ℕ → ℕ) → Tree → Tree
map_tree f (branch l r) = branch (map_tree f l) (map_tree f r)
map_tree f (leaf x) = leaf (f x)

-- `reduceTree`; `g` reads a leaf, which the source does with no conversion.
unfoldable pub reduce_tree {ℓ} :
    {A : Type ℓ} → (ℕ → A) → (HashType → A → A → A) → HashType → Tree → A
reduce_tree g f ht (branch l r) = f ht (reduce_tree g f ht l) (reduce_tree g f ht r)
reduce_tree g f ht (leaf x) = g x

-- `hashTree`, over the two-argument call of `utils.concatenateThenHash`.
unfoldable pub hash_tree : (HashType → ℕ → ℕ → ℕ) → Tree → HashType → ℕ
unfolding reduce_tree
hash_tree concatenate_then_hash tree ht = reduce_tree (λ x. x) concatenate_then_hash ht tree

-- `moveDown`; a digit is never outside '0' and '1'.
unfoldable pub move_down : Tree → List Digit → Tree
move_down t [] = t
move_down (branch l r) (d0 ∷ p) = move_down l p
move_down (branch l r) (d1 ∷ p) = move_down r p
move_down (leaf x) (d ∷ p) = leaf x

unfoldable pub prune_right_sub_tree : Tree → List Digit → Tree
prune_right_sub_tree (leaf x) p = leaf x
prune_right_sub_tree (branch l r) (d0 ∷ p) = branch (prune_right_sub_tree l p) (leaf zero_value)
prune_right_sub_tree (branch l r) (d1 ∷ p) = branch l (prune_right_sub_tree r p)
prune_right_sub_tree (branch l r) [] = branch l (prune_right_sub_tree r [])

-- One step of the `reduce` of `verifySiblingPath`.
abbrev pub combine : (ℕ → ℕ → ℕ) → Side → ℕ → ℕ → ℕ
combine hash right acc value = hash acc value
combine hash left acc value = hash value acc

abbrev pub climb : (HashType → ℕ → ℕ → ℕ) → HashType → ℕ → Sibling → ℕ
climb hash ht acc s = combine (hash ht) s.dir acc s.value

-- `verifySiblingPath`
-- A root is a string, or `none` for the Number 0 that a new object has, which no string equals.
abbrev pub Root : Type 0
Root = Option ℕ

abbrev pub is_root : ℕ → Root → Bool
is_root value none = false
is_root value (some root) = value == root

unfoldable pub verify_sibling_path :
    (HashType → ℕ → ℕ → ℕ) → ℕ → Root → SiblingPath → HashType → Bool
verify_sibling_path hash v root proof ht =
    if length proof.path == 0 then false else is_root (foldl (climb hash ht) v proof.path) root
