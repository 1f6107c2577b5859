-- ===== src/Timber/SiblingPaths.antt =====
-- `getSiblingPath` and `verifySiblingPath` of common-files/classes/timber.mjs on an object that
-- holds a list of leaves.
use nightfall.Common.{
  ℕ, zero, suc, ◌+◌, ◌^◌, ◌≤◌, ◌≡◌, refl, sym, ap, ◌∙◌, inl, inr, none, some, List, [], ◌∷◌, ◌++◌,
  length, take, drop, foldl, get_elem?, arith, true, false, ◌==◌, length-take, length-drop,
  take_all, drop_all, take-append-drop, get_elem?-lt, get_elem?-append_lt, two-pow-suc, two-pow-pos,
  lt-cases, eq-cases, ne→==, eq→==, le→ltb, append_assoc, ok,
}
use native.Mathlib.Nat.{zero-add, add-zero}
use nightfall.Timber.Tree.{
  Tree, leaf, branch, HashType, SiblingPath, zero_value, climb, verify_sibling_path,
}
use nightfall.Timber.Paths.{bits, path_to-eq-bits}
use nightfall.Timber.Dense.{build, build-nil, build-suc}
use nightfall.Timber.Object.{
  Timber, leaves_of, to_array, find_index_from, find_index, sibling_path_at, get_sibling_path,
}
use nightfall.Timber.Contract.{Holds}
use nightfall.Timber.Membership.{walk, answer, siblings, length-siblings, climb-walk, walk-build}

-- A full tree lists its leaves, and any other tree lists zero values after them.
leaves_of-branch : (l r : Tree) → leaves_of (branch l r) ≡ leaves_of l ++ leaves_of r
unfolding leaves_of
leaves_of-branch l r = refl

leaves_of-leaf : (x : ℕ) → leaves_of (leaf x) ≡ x ∷ []
unfolding leaves_of
leaves_of-leaf x = refl

leaves_of-full : (h : ℕ) (xs : List ℕ) → length xs ≡ 2 ^ h → leaves_of (build h xs) ≡ xs
leaves_of-full zero [] full = absurd (omega arith)
leaves_of-full zero (x ∷ []) full = unfold build in leaves_of-leaf x
leaves_of-full zero (x ∷ y ∷ xs) full = absurd (omega arith)
leaves_of-full (suc h) xs full =
    rw
      (
        build-suc h xs (omega (arith, two-pow-suc h, two-pow-pos h)),
        leaves_of-branch,
        leaves_of-full h (take (2 ^ h) xs) (omega (arith, length-take (2 ^ h) xs, two-pow-suc h)),
        leaves_of-full h (drop (2 ^ h) xs) (omega (arith, length-drop (2 ^ h) xs, two-pow-suc h)),
      )
      (take-append-drop (2 ^ h) xs)

leaves_of-build :
    (h : ℕ) (xs : List ℕ) → length xs ≤ 2 ^ h → (zs : List ℕ) × (leaves_of (build h xs) ≡ xs ++ zs)
leaves_of-build h [] fits = (zero_value ∷ [], rw (build-nil h) (leaves_of-leaf zero_value))
leaves_of-build zero (x ∷ []) fits = ([], unfold build in leaves_of-leaf x)
leaves_of-build zero (x ∷ y ∷ xs) fits = absurd (omega arith)
leaves_of-build (suc h) (x ∷ xs) fits = elim (lt-cases (2 ^ h) (length (x ∷ xs))) [
  | inl right ↦
      let (zs, e) =
        leaves_of-build h (drop (2 ^ h) (x ∷ xs))
          (omega (arith, length-drop (2 ^ h) (x ∷ xs), two-pow-suc h)) in
      (
        zs,
        rw (
          build-suc h (x ∷ xs) (omega arith),
          leaves_of-branch,
          leaves_of-full h (take (2 ^ h) (x ∷ xs)) (omega (arith, length-take (2 ^ h) (x ∷ xs))),
          e,
          ← append_assoc,
          take-append-drop (2 ^ h) (x ∷ xs),
        ),
      )
  | inr left ↦
      let (zs, e) = leaves_of-build h (x ∷ xs) left in
      (
        zs ++ zero_value ∷ [],
        rw
            (
              build-suc h (x ∷ xs) (omega arith),
              leaves_of-branch,
              take_all (2 ^ h) (x ∷ xs) left,
              drop_all (2 ^ h) (x ∷ xs) left,
              build-nil h,
              leaves_of-leaf,
              e,
            )
            (append_assoc (x ∷ xs) zs (zero_value ∷ [])),
      )
]

suc-add : (k j : ℕ) → suc k + j ≡ k + suc j
suc-add k j = omega arith

find_index_from-first :
    (k v : ℕ) (ys : List ℕ) (i : ℕ)
    → get_elem? ys i ≡ some v
    → (j : ℕ) × (j ≤ i) × (get_elem? ys j ≡ some v) × (find_index_from k v ys ≡ some (k + j))
unfolding find_index_from
find_index_from-first k v [] i at = absurd (cc)
find_index_from-first k v (y ∷ ys) zero at =
    (0, omega arith, at, rw (eq→== y v (cc)) (ap some (sym (add-zero k))))
find_index_from-first k v (y ∷ ys) (suc i) at = elim (eq-cases y v) [
  | inl e ↦ (0, omega arith, ap some e, rw (eq→== y v e) (ap some (sym (add-zero k))))
  | inr ne ↦
      let (j, le, at_j, found) = find_index_from-first (suc k) v ys i at in
      (suc j, omega arith, at_j, rw (ne→== y v ne) (found ∙ ap some (suc-add k j)))
]

find_index-first :
    (v : ℕ) (ys : List ℕ) (i : ℕ)
    → get_elem? ys i ≡ some v
    → (j : ℕ) × (j ≤ i) × (get_elem? ys j ≡ some v) × (find_index v ys ≡ some j)
unfolding find_index
find_index-first v ys i at =
    let (j, le, at_j, e) = find_index_from-first 0 v ys i at in
    (j, le, at_j, e ∙ ap some (zero-add j))

module _ (hash : HashType → ℕ → ℕ → ℕ) (t : Timber) (xs : List ℕ) (held : Holds hash t xs) where
  sibling_path_at-build :
      (v x i : ℕ)
      → get_elem? xs i ≡ some x
      → sibling_path_at hash t v (some i)
        ≡ ok (answer hash t.hash_type x v (siblings hash t.hash_type t.height xs i []))
  unfolding sibling_path_at
  sibling_path_at-build v x i at = rw (
    le→ltb t.leaf_count i (omega (arith, held.count, get_elem?-lt xs i x at)),
    held.tree,
    path_to-eq-bits t.height i held.tall (omega (arith, held.fits, get_elem?-lt xs i x at)),
    walk-build hash t.hash_type v x t.height xs i [] held.fits at,
  )

  -- At an index that holds a leaf, `getSiblingPath` answers by whether the value is that leaf.
  pub get_sibling_path-build :
      (v x i : ℕ)
      → get_elem? xs i ≡ some x
      → get_sibling_path hash t v (some i)
        ≡ ok (answer hash t.hash_type x v (siblings hash t.hash_type t.height xs i []))
  unfolding get_sibling_path
  get_sibling_path-build v x i at =
      rw (ne→== t.leaf_count 0 (omega (arith, held.count, get_elem?-lt xs i x at)))
        (sibling_path_at-build v x i at)

  climb-siblings :
      (x i : ℕ)
      → get_elem? xs i ≡ some x
      → some (foldl (climb hash t.hash_type) x (siblings hash t.hash_type t.height xs i []))
        ≡ t.root
  climb-siblings x i at =
      let found = walk_found x i at in
      ap (λ (r : SiblingPath). some (foldl (climb hash t.hash_type) x r.path)) (sym found)
      ∙ ap (λ r. some r)
          (climb-walk hash t.hash_type x (build t.height xs) (bits t.height i) []
            (ap (λ (r : SiblingPath). r.is_member) found))
      ∙ sym (elim held.root [ inl e ↦ e | inr (e, empty) ↦ absurd (occupied xs i x at empty) ])
    where
      occupied : (ys : List ℕ) (j y : ℕ) → get_elem? ys j ≡ some y → ys ≡ [] → ⊥
      occupied [] j y h e = absurd (cc h)
      occupied (z ∷ ys) j y h e = cc e

      walk_found :
          (x i : ℕ)
          → get_elem? xs i ≡ some x
          → walk hash t.hash_type x (build t.height xs) (bits t.height i) []
            ≡ record { is_member = true; path = siblings hash t.hash_type t.height xs i [] }
      walk_found x i at =
          walk-build hash t.hash_type x x t.height xs i [] held.fits at ∙ rw (eq→== x x refl)

  -- On an object of positive height that holds a list, `getSiblingPath` of a leaf at its index
  -- returns a path with one sibling for each level, which verifies against the root.
  pub get_sibling_path-verifies :
      (x i : ℕ)
      → get_elem? xs i ≡ some x
      → (proof : SiblingPath) × (get_sibling_path hash t x (some i) ≡ ok proof)
        × (proof.is_member ≡ true)
        × (length proof.path ≡ t.height)
        × (verify_sibling_path hash x t.root proof t.hash_type ≡ true)
  unfolding verify_sibling_path
  get_sibling_path-verifies x i at =
      let levels : length (siblings hash t.hash_type t.height xs i []) ≡ t.height =
        omega (arith, length-siblings hash t.hash_type t.height xs i []) in
      (
        record { is_member = true; path = siblings hash t.hash_type t.height xs i [] },
        get_sibling_path-build x x i at ∙ rw (eq→== x x refl),
        refl,
        levels,
        rw
            (ne→== (length (siblings hash t.hash_type t.height xs i [])) 0
              (omega (arith, held.tall)))
            (rw (← climb-siblings x i at) (eq→== _ _ refl)),
      )

  -- On an object that holds a list, for a value that is in the list, `getSiblingPath` with no index
  -- is that of the first leaf with the value.
  pub get_sibling_path-first :
      (x i : ℕ)
      → get_elem? xs i ≡ some x
      → (j : ℕ) × (j ≤ i)
        × (get_elem? xs j ≡ some x)
        × (get_sibling_path hash t x none ≡ get_sibling_path hash t x (some j))
  unfolding get_sibling_path to_array
  get_sibling_path-first x i at =
      let some_leaf : (t.leaf_count == 0) ≡ false =
        ne→== t.leaf_count 0 (omega (arith, held.count, get_elem?-lt xs i x at)) in
      let (zs, e) = leaves_of-build t.height xs held.fits in
      let (j, le, at_j, found) =
        find_index-first x (leaves_of t.tree) i
          (rw (held.tree, e) (get_elem?-append_lt xs zs i (get_elem?-lt xs i x at) ∙ at)) in
      (
        j,
        le,
        sym (get_elem?-append_lt xs zs j (omega (arith, get_elem?-lt xs i x at)))
            ∙ ap (λ l. get_elem? l j) (sym (ap leaves_of held.tree ∙ e))
            ∙ at_j,
        rw (some_leaf, found),
      )
