-- ===== src/Timber/Membership.antt =====
-- The sibling paths of common-files/classes/timber.mjs: what `_checkMembership` finds, and what
-- `verifySiblingPath` accepts.
use nightfall.Common.{
  ℕ, zero, suc, ◌+◌, ◌-◌, ◌^◌, ◌≤◌, ◌≡◌, ap, ◌∙◌, inl, inr, some, List, [], ◌∷◌, length, take, drop,
  get_elem?, foldl, arith, true, false, ◌==◌, if◌then◌else◌, length-take, length-drop,
  get_elem?-take, get_elem?-drop, get_elem?-lt, ltb, lt→ltb, two-pow-suc, lt-cases, le→ltb,
  Bool-cases,
}
use nightfall.Timber.Tree.{
  Digit, d0, d1, Tree, leaf, branch, HashType, left, right, Sibling, SiblingPath, check_membership,
  hash_tree, climb,
}
use nightfall.Timber.Paths.{bits, bits_left, bits_right}
use nightfall.Timber.Dense.{build, build-suc}

add_sub : (i p : ℕ) → p ≤ i → p + (i - p) ≡ i
add_sub i p h = omega arith

module _ (hash : HashType → ℕ → ℕ → ℕ) (ht : HashType) where
  abbrev pub walk : ℕ → Tree → List Digit → List Sibling → SiblingPath
  walk v t p acc = check_membership v t p (hash_tree hash) ht acc

  -- The siblings that the walk adds to `acc` lead from the leaf to the hash of the tree.
  pub climb-walk :
      (v : ℕ) (t : Tree) (p : List Digit) (acc : List Sibling)
      → (walk v t p acc).is_member ≡ true
      → foldl (climb hash ht) v (walk v t p acc).path
        ≡ foldl (climb hash ht) (hash_tree hash t ht) acc
  unfolding check_membership hash_tree
  climb-walk v (leaf x) p acc found = elim (Bool-cases (x == v)) [
    | inl same ↦ let e : x ≡ v = ground arith in rw (same, e)
    | inr other ↦ absurd (cc (rw other at found))
  ]
  climb-walk v (branch l r) (d0 ∷ p) acc found =
      climb-walk v l p (record { dir = right; value = hash_tree hash r ht } ∷ acc) found
  climb-walk v (branch l r) (d1 ∷ p) acc found =
      climb-walk v r p (record { dir = left; value = hash_tree hash l ht } ∷ acc) found
  climb-walk v (branch l r) [] acc found =
      climb-walk v r [] (record { dir = left; value = hash_tree hash l ht } ∷ acc) found

  -- The siblings on the way up from the index `i`, the lowest first, before those of `acc`.
  pub siblings : ℕ → List ℕ → ℕ → List Sibling → List Sibling
  siblings zero xs i acc = acc
  siblings (suc h) xs i acc =
      let left_path =
        siblings h (take (2 ^ h) xs) i
          (record { dir = right; value = hash_tree hash (build h (drop (2 ^ h) xs)) ht } ∷ acc) in
      let right_path =
        siblings h (drop (2 ^ h) xs) (i - 2 ^ h)
          (record { dir = left; value = hash_tree hash (build h (take (2 ^ h) xs)) ht } ∷ acc) in
      if ltb i (2 ^ h) then left_path else right_path

  pub length-siblings :
      (h : ℕ) (xs : List ℕ) (i : ℕ) (acc : List Sibling)
      → length (siblings h xs i acc) ≡ h + length acc
  unfolding siblings
  length-siblings zero xs i acc = omega arith
  length-siblings (suc h) xs i acc = elim (lt-cases i (2 ^ h)) [
    | inl low ↦ rw (lt→ltb i (2 ^ h) low) (
        omega (
          arith,
          length-siblings h (take (2 ^ h) xs) i
              (record { dir = right; value = hash_tree hash (build h (drop (2 ^ h) xs)) ht } ∷ acc),
        ))
    | inr high ↦ rw (le→ltb i (2 ^ h) high) (
        omega (
          arith,
          length-siblings h (drop (2 ^ h) xs) (i - 2 ^ h)
              (record { dir = left; value = hash_tree hash (build h (take (2 ^ h) xs)) ht } ∷ acc),
        ))
  ]

  abbrev pub answer : ℕ → ℕ → List Sibling → SiblingPath
  answer x v path =
      if x == v
      then record { is_member = true; path = path }
      else record { is_member = false; path = [] }

  -- In the tree of a list the walk to an index passes every level and compares the leaf there.
  pub walk-build :
      (v x h : ℕ) (xs : List ℕ) (i : ℕ) (acc : List Sibling)
      → length xs ≤ 2 ^ h
      → get_elem? xs i ≡ some x
      → walk v (build h xs) (bits h i) acc ≡ answer x v (siblings h xs i acc)
  unfolding siblings check_membership
  walk-build v x zero [] i acc fits at = absurd (cc)
  walk-build v x zero (y ∷ xs) zero acc fits at =
      let e : y ≡ x = cc in unfold build bits in ap (λ k. answer k v acc) e
  walk-build v x zero (y ∷ xs) (suc i) acc fits at = absurd (omega (arith, get_elem?-lt xs i x at))
  walk-build v x (suc h) xs i acc fits at = elim (lt-cases i (2 ^ h)) [
    | inl low ↦
        rw
          (
            bits_left h i low,
            build-suc h xs (omega (arith, get_elem?-lt xs i x at)),
            lt→ltb i (2 ^ h) low,
          )
          (walk-build v x h (take (2 ^ h) xs) i _ (omega (arith, length-take (2 ^ h) xs))
            (get_elem?-take (2 ^ h) xs i low ∙ at))
    | inr high ↦
        rw
          (
            bits_right h i high (omega (arith, get_elem?-lt xs i x at, two-pow-suc h)),
            build-suc h xs (omega (arith, get_elem?-lt xs i x at)),
            le→ltb i (2 ^ h) high,
          )
          (walk-build v x h (drop (2 ^ h) xs) (i - 2 ^ h) _
            (omega (arith, length-drop (2 ^ h) xs, two-pow-suc h))
            (get_elem?-drop (2 ^ h) xs (i - 2 ^ h)
              ∙ ap (get_elem? xs) (add_sub i (2 ^ h) high)
              ∙ at))
  ]
