-- ===== src/Timber/Dense.antt =====
-- The tree that holds a list of leaves, and what the helpers of common-files/classes/timber.mjs
-- do to it: `_insertLeaf` appends a leaf and `pruneRightSubTree` cuts the list.
use nightfall.Common.{
  ℕ, zero, suc, ◌-◌, ◌^◌, ◌≤◌, ◌<◌, ◌≡◌, refl, ap, inl, inr, List, [], ◌∷◌, ◌++◌, length, take,
  drop, arith, length-append, length-take, length-drop, take_all, drop_all, take-nil, drop-nil,
  take-append_le, drop-append_le, take-take, drop-take, two-pow-suc, lt-cases,
}
use nightfall.Timber.Tree.{
  Digit, d0, d1, Tree, leaf, branch, zero_value, insert_leaf_at, prune_right_sub_tree,
}
use nightfall.Timber.Paths.{bits, bits_left, bits_right}

-- The tree of the given height with the leaves at the indices 0, 1, …; a subtree with no leaves
-- is the zero leaf.
unfoldable pub build : ℕ → List ℕ → Tree
build zero [] = leaf zero_value
build zero (x ∷ xs) = leaf x
build (suc h) [] = leaf zero_value
build (suc h) (x ∷ xs) = branch (build h (take (2 ^ h) (x ∷ xs))) (build h (drop (2 ^ h) (x ∷ xs)))

abbrev pub halves : ℕ → List ℕ → Tree
halves h xs = branch (build h (take (2 ^ h) xs)) (build h (drop (2 ^ h) xs))

pub build-nil : (h : ℕ) → build h [] ≡ leaf zero_value
unfolding build
build-nil zero = refl
build-nil (suc h) = refl

pub build-suc : (h : ℕ) (xs : List ℕ) → 0 < length xs → build (suc h) xs ≡ halves h xs
unfolding build
build-suc h [] pos = absurd (omega arith)
build-suc h (x ∷ xs) pos = refl

-- Where a digit follows, an insertion expands an empty tree to two empty halves.
insert_leaf_at-halves :
    (h v : ℕ) (xs : List ℕ) (d : Digit) (p : List Digit)
    → insert_leaf_at v (build (suc h) xs) (d ∷ p) ≡ insert_leaf_at v (halves h xs) (d ∷ p)
unfolding insert_leaf_at build
insert_leaf_at-halves h v [] d0 p = simp (take-nil {A = ℕ}, drop-nil {A = ℕ}, build-nil)
insert_leaf_at-halves h v [] d1 p = simp (take-nil {A = ℕ}, drop-nil {A = ℕ}, build-nil)
insert_leaf_at-halves h v (x ∷ xs) d p = refl

snoc-pos : (xs : List ℕ) (v : ℕ) → 0 < length (xs ++ v ∷ [])
snoc-pos xs v = omega (arith, length-append xs (v ∷ []))

-- An insertion at the next index appends the leaf.
pub insert_leaf_at-build :
    (h : ℕ) (xs : List ℕ) (v : ℕ)
    → length xs < 2 ^ h
    → insert_leaf_at v (build h xs) (bits h (length xs)) ≡ build h (xs ++ v ∷ [])
unfolding insert_leaf_at
insert_leaf_at-build zero [] v lt = unfold bits build in refl
insert_leaf_at-build zero (x ∷ xs) v lt = absurd (omega arith)
insert_leaf_at-build (suc h) xs v lt = elim (lt-cases (length xs) (2 ^ h)) [
  | inl left ↦
      rw
        (
          bits_left h (length xs) left,
          insert_leaf_at-halves,
          build-suc h (xs ++ v ∷ []) (snoc-pos xs v),
          take_all (2 ^ h) xs (omega arith),
          drop_all (2 ^ h) xs (omega arith),
          take_all (2 ^ h) (xs ++ v ∷ []) (omega (arith, length-append xs (v ∷ []))),
          drop_all (2 ^ h) (xs ++ v ∷ []) (omega (arith, length-append xs (v ∷ []))),
        )
        (ap (λ t. branch t (build h [])) (insert_leaf_at-build h xs v left))
  | inr right ↦
      rw
        (
          bits_right h (length xs) right (omega (arith, two-pow-suc h)),
          insert_leaf_at-halves,
          build-suc h (xs ++ v ∷ []) (snoc-pos xs v),
          take-append_le (2 ^ h) xs (v ∷ []) right,
          drop-append_le (2 ^ h) xs (v ∷ []) right,
          ← length-drop (2 ^ h) xs,
        )
        (ap (λ t. branch (build h (take (2 ^ h) xs)) t)
          (insert_leaf_at-build h (drop (2 ^ h) xs) v
            (omega (arith, length-drop (2 ^ h) xs, two-pow-suc h))))
]

suc-sub : (m k : ℕ) → k ≤ m → suc m - k ≡ suc (m - k)
suc-sub m k le = omega arith

-- Pruning right of the leaf `m - 1` keeps the first `m` leaves.
pub prune_right_sub_tree-build :
    (h : ℕ) (xs : List ℕ) (m : ℕ)
    → m < length xs
    → length xs ≤ 2 ^ h
    → prune_right_sub_tree (build h xs) (bits h m) ≡ build h (take (suc m) xs)
unfolding prune_right_sub_tree
prune_right_sub_tree-build zero [] m lt le = absurd (omega arith)
prune_right_sub_tree-build zero (x ∷ xs) m lt le = unfold build in refl
prune_right_sub_tree-build (suc h) xs m lt le = elim (lt-cases m (2 ^ h)) [
  | inl left ↦
      rw
        (
          bits_left h m left,
          build-suc h xs (omega arith),
          build-suc h (take (suc m) xs) (omega (arith, length-take (suc m) xs)),
          drop_all (2 ^ h) (take (suc m) xs) (omega (arith, length-take (suc m) xs)),
          take_all (2 ^ h) (take (suc m) xs) (omega (arith, length-take (suc m) xs)),
          build-nil h,
          ← take-take (suc m) (2 ^ h) xs left,
        )
        (ap (λ t. branch t (leaf zero_value))
          (prune_right_sub_tree-build h (take (2 ^ h) xs) m (omega (arith, length-take (2 ^ h) xs))
            (omega (arith, length-take (2 ^ h) xs))))
  | inr right ↦
      rw
        (
          bits_right h m right (omega (arith, two-pow-suc h)),
          build-suc h xs (omega arith),
          build-suc h (take (suc m) xs) (omega (arith, length-take (suc m) xs)),
          take-take (2 ^ h) (suc m) xs (omega arith),
          drop-take (2 ^ h) (suc m) xs,
          suc-sub m (2 ^ h) right,
        )
        (ap (λ t. branch (build h (take (2 ^ h) xs)) t)
          (prune_right_sub_tree-build h (drop (2 ^ h) xs) (m - 2 ^ h)
            (omega (arith, length-drop (2 ^ h) xs))
            (omega (arith, length-drop (2 ^ h) xs, two-pow-suc h))))
]
