-- ===== src/Timber/Contract.antt =====
-- The contract of the class `Timber` of common-files/classes/timber.mjs: an object holds a list of
-- leaves, and the methods work on that list. The root of an object that was not changed yet is not the
-- hash of its empty tree.
use nightfall.Common.{
  ℕ, zero, suc, ◌+◌, ◌-◌, ◌^◌, ◌≤◌, ◌<◌, ◌≡◌, ◌≢◌, ◌⊎◌, none, some, refl, sym, ◌∙◌, subst, inl, inr,
  List, [], ◌∷◌, reverse, length, take, drop, arith, length-drop, eq-cases, Result, ok,
}
use nightfall.Timber.Tree.{HashType, Error, hash_tree}
use nightfall.Timber.Dense.{build, build-nil}
use nightfall.Timber.Frontier.{
  floor_log2, calc_frontier_from, calc_frontier, combine_frontiers, perfect_points,
}
use nightfall.Timber.FrontierSteps.{calc-zero, calc-one, calc-full, calc-split, floor_log2_bounds}
use nightfall.Timber.Object.{Timber, empty_timber, with_tree}

one_leaf : (xs : List ℕ) → length xs ≡ 1 → (x : ℕ) × (xs ≡ x ∷ [])
one_leaf [] e = absurd (omega arith)
one_leaf (x ∷ []) e = (x, refl)
one_leaf (x ∷ y ∷ xs) e = absurd (omega arith)

no_leaf : (xs : List ℕ) → length xs ≡ 0 → xs ≡ []
no_leaf [] e = refl
no_leaf (x ∷ xs) e = absurd (omega arith)

log_pos : (n : ℕ) → 1 < n → 0 < floor_log2 n
log_pos n many = elim (eq-cases (floor_log2 n) 0) [
  | inl e ↦
      let high : n < 2 ^ floor_log2 n + 2 ^ floor_log2 n = (floor_log2_bounds n (omega arith)).1 in
      let low : n < 2 ^ 0 + 2 ^ 0 = subst (λ k. n < 2 ^ k + 2 ^ k) e high in absurd (omega arith)
  | inr ne ↦ omega arith
]

Timber_path :
    (t u : Timber)
    → t.root ≡ u.root
    → t.tree ≡ u.tree
    → t.frontier ≡ u.frontier
    → t.leaf_count ≡ u.leaf_count
    → t.hash_type ≡ u.hash_type
    → t.height ≡ u.height
    → t.width ≡ u.width
    → t ≡ u
Timber_path t u r tr f c ht h w = λ i. record {
  root = r i;
  tree = tr i;
  frontier = f i;
  leaf_count = c i;
  hash_type = ht i;
  height = h i;
  width = w i;
}

ok_injective : (xs ys : List ℕ) → ◌≡◌ {A = Result Error (List ℕ)} (ok xs) (ok ys) → xs ≡ ys
ok_injective xs ys e = cc

module _ (hash : HashType → ℕ → ℕ → ℕ) where
  split_total :
      (ht : HashType) (fuel h : ℕ) (xs points : List ℕ)
      → 1 < length xs
      → length xs < 2 ^ h
      → let rest : List ℕ = drop (2 ^ floor_log2 (length xs)) xs in
        calc_frontier_from hash fuel
            (build (floor_log2 (length xs)) rest)
            (length rest)
            (floor_log2 (length xs))
            ht
          ≡ ok points
        → (ps : List ℕ) × (calc_frontier_from hash (suc fuel) (build h xs) (length xs) h ht ≡ ok ps)
  split_total ht fuel h xs points many lt e =
      let k : ℕ = floor_log2 (length xs) in
      (
        combine_frontiers (reverse (perfect_points hash k (build k (take (2 ^ k) xs)) ht)) points,
        calc-split hash ht fuel h xs many lt ∙ rw (← length-drop (2 ^ k) xs, e),
      )

  -- The frontier of the tree of a list of leaves that fits into a positive height is computed, with
  -- any fuel above their number.
  pub calc_frontier_from_total :
      (ht : HashType) (fuel h : ℕ) (xs : List ℕ)
      → 0 < h
      → length xs ≤ 2 ^ h
      → length xs < fuel
      → (points : List ℕ) × (calc_frontier_from hash fuel (build h xs) (length xs) h ht ≡ ok points)
  calc_frontier_from_total ht zero h xs tall fits enough = absurd (omega arith)
  calc_frontier_from_total ht (suc fuel) h xs tall fits enough = elim (eq-cases (length xs) 0) [
    | inl no_leaves ↦ ([], rw no_leaves (calc-zero hash ht fuel (build h xs) h))
    | inr leaves ↦ elim (eq-cases (length xs) 1) [
      | inl single ↦
          let (x, e) = one_leaf xs single in (x ∷ [], rw e (calc-one hash ht fuel h x tall))
      | inr many ↦ elim (eq-cases (length xs) (2 ^ h)) [
        | inl full ↦ (
          perfect_points hash (floor_log2 (length xs)) (build h xs) ht,
          calc-full hash ht fuel h xs (omega arith) full,
        )
        | inr space ↦
            let k : ℕ = floor_log2 (length xs) in
            let (low, high) = floor_log2_bounds (length xs) (omega arith) in
            let rest : length (drop (2 ^ k) xs) ≡ length xs - 2 ^ k = length-drop (2 ^ k) xs in
            let (points, e) =
              calc_frontier_from_total ht fuel k (drop (2 ^ k) xs)
                (log_pos (length xs) (omega arith)) (omega arith) (omega arith) in
            split_total ht fuel h xs points (omega arith) (omega arith) e
      ]
    ]
  ]

  pub record Holds (t : Timber) (xs : List ℕ) : Type 0 where
    pub tall : 0 < t.height
    pub width : t.width ≡ 2 ^ t.height
    pub fits : length xs ≤ 2 ^ t.height
    pub count : t.leaf_count ≡ length xs
    pub tree : t.tree ≡ build t.height xs
    pub root :
        (t.root ≡ some (hash_tree hash (build t.height xs) t.hash_type))
        ⊎ ((t.root ≡ none) × (xs ≡ []))
    pub frontier :
        calc_frontier hash (build t.height xs) (length xs) t.height t.hash_type ≡ ok t.frontier

  -- With the tree of a list in place, the other fields follow.
  pub with_tree-Holds :
      (t : Timber) (xs : List ℕ)
      → 0 < t.height
      → t.width ≡ 2 ^ t.height
      → length xs ≤ 2 ^ t.height
      → (t' : Timber) × (with_tree hash t (build t.height xs) (length xs) ≡ ok t')
        × Holds t' xs
        × (t'.height ≡ t.height)
        × (t'.hash_type ≡ t.hash_type)
  unfolding with_tree calc_frontier
  with_tree-Holds t xs tall wide fits =
      let (points, e) =
        calc_frontier_from_total t.hash_type (length xs + 1) t.height xs tall fits (omega arith) in
      (
        record t {
          tree = build t.height xs;
          leaf_count = length xs;
          root = some (hash_tree hash (build t.height xs) t.hash_type);
          frontier = points;
        },
        rw e,
        record {
          tall = tall;
          width = wide;
          fits = fits;
          count = refl;
          tree = refl;
          root = inl refl;
          frontier = e;
        },
        refl,
        refl,
      )

  pub empty_timber-Holds : (ht : HashType) (h : ℕ) → 0 < h → Holds (empty_timber ht h) []
  unfolding empty_timber hash_tree calc_frontier calc_frontier_from
  empty_timber-Holds ht h tall = record {
    tall = tall;
    width = refl;
    fits = omega arith;
    count = refl;
    tree = sym (build-nil h);
    root = inr (refl, refl);
    frontier = refl;
  }

  -- Unless it is the 0 of a new object, the root is the hash of the tree.
  pub Holds-root :
      (t : Timber) (xs : List ℕ)
      → Holds t xs
      → t.root ≢ none
      → t.root ≡ some (hash_tree hash (build t.height xs) t.hash_type)
  Holds-root t xs held ne = elim held.root [ inl e ↦ e | inr (e, empty) ↦ absurd (ne e) ]

  -- It is for an object that holds a leaf.
  pub Holds-roots :
      (t u : Timber) (xs : List ℕ)
      → Holds t xs
      → Holds u xs
      → t.height ≡ u.height
      → t.hash_type ≡ u.hash_type
      → xs ≢ []
      → t.root ≡ u.root
  Holds-roots t u xs p q h ht some_leaf = cc (not_new t p, not_new u q, h, ht)
    where
      not_new :
          (w : Timber) → Holds w xs → w.root ≡ some (hash_tree hash (build w.height xs) w.hash_type)
      not_new w held = elim held.root [ inl e ↦ e | inr (e, empty) ↦ absurd (some_leaf empty) ]

  -- What an object holds, with its root, its height and its hash, determines it.
  pub Holds-determines :
      (t u : Timber) (xs : List ℕ)
      → Holds t xs
      → Holds u xs
      → t.root ≡ u.root
      → t.height ≡ u.height
      → t.hash_type ≡ u.hash_type
      → t ≡ u
  Holds-determines t u xs p q same_root h ht =
      Timber_path t u same_root (cc (p.tree, q.tree, h))
        (ok_injective t.frontier u.frontier (cc (p.frontier, q.frontier, h, ht)))
        (cc (p.count, q.count)) ht h (cc (p.width, q.width, h))
