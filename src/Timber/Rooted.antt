-- ===== src/Timber/Rooted.antt =====
-- The methods of common-files/classes/timber.mjs that change an object do not give it the root of a new
-- one.
use nightfall.Common.{
  ℕ, ◌+◌, ◌-◌, ◌≡◌, ap, subst, inl, inr, List, [], ◌∷◌, length, arith, ◌==◌, lt-cases, eq-cases,
  lt→ltb, le→ltb, ne→==, eq→==, if◌then◌else◌, Result, ok, ◌≢◌, none, some, through,
}
use nightfall.Timber.Tree.{Tree, leaf, HashType, Error, zero_value, hash_tree, prune_right_sub_tree}
use nightfall.Timber.Frontier.{calc_frontier}
use nightfall.Timber.Path.{path_to}
use nightfall.Timber.Object.{Timber, insert_from, with_tree, insert_leaves, rollback}

ok_injective : (t u : Timber) → ◌≡◌ {A = Result Error Timber} (ok t) (ok u) → t ≡ u
ok_injective t u e = cc

module _ (hash : HashType → ℕ → ℕ → ℕ) where
  -- No method sets the root to the 0 of a new object.
  with_tree-Rooted :
      (t t' : Timber) (tree : Tree) (n : ℕ) → with_tree hash t tree n ≡ ok t' → t'.root ≢ none
  unfolding with_tree
  with_tree-Rooted t t' tree n h e =
      let (frontier, known, made) =
        through (calc_frontier hash tree n t.height t.hash_type)
          (λ frontier. ok (record t {
            tree = tree;
            leaf_count = n;
            root = some (hash_tree hash tree t.hash_type);
            frontier = frontier;
          }))
          h in
      cc (ap (λ (u : Timber). u.root) (ok_injective _ t' made), e)

  pub insert_leaves-Rooted :
      (t t' : Timber) (vs : List ℕ)
      → t.root ≢ none
      → insert_leaves hash t vs ≡ ok t'
      → t'.root ≢ none
  unfolding insert_leaves
  insert_leaves-Rooted t t' [] ne h = subst (λ (u : Timber). u.root ≢ none) (ok_injective t t' h) ne
  insert_leaves-Rooted t t' (v ∷ vs) ne h =
      elim (lt-cases t.width (t.leaf_count + length (v ∷ vs))) [
        | inl over ↦
            absurd (cc (rw (ne→== (length (v ∷ vs)) 0 (omega arith), lt→ltb _ _ over) at h))
        | inr room ↦
            with_tree-Rooted t t' (insert_from t.height t.leaf_count t.tree (v ∷ vs))
              (t.leaf_count + length (v ∷ vs))
              (rw (ne→== (length (v ∷ vs)) 0 (omega arith), le→ltb _ _ room) at h)
      ]

  pub rollback-Rooted :
      (t t' : Timber) (n : ℕ) → t.root ≢ none → rollback hash t n ≡ ok t' → t'.root ≢ none
  unfolding rollback
  rollback-Rooted t t' n ne h = elim (lt-cases t.leaf_count n) [
    | inl over ↦ absurd (cc (rw (lt→ltb _ _ over) at h))
    | inr room ↦ elim (eq-cases n t.leaf_count) [
      | inl same ↦
          subst (λ (u : Timber). u.root ≢ none)
            (ok_injective t t' (rw (le→ltb _ _ room, eq→== n t.leaf_count same) at h)) ne
      | inr other ↦
          with_tree-Rooted t t'
            (if n == 0
              then leaf zero_value
              else prune_right_sub_tree t.tree (path_to t.height (n - 1)))
            n (rw (le→ltb _ _ room, ne→== n t.leaf_count other) at h)
    ]
  ]
