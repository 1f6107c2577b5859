-- ===== src/Timber/History.antt =====
-- `insertLeaf`, `insertLeaves` and `rollback` of common-files/classes/timber.mjs as operations on
-- the list of leaves that an object holds: append, append, and take.
use nightfall.Common.{
  ℕ, zero, suc, ◌+◌, ◌-◌, ◌^◌, ◌≤◌, ◌<◌, ◌≡◌, refl, sym, ap, ◌∙◌, subst, inl, inr, List, [], ◌∷◌,
  ◌++◌, length, take, arith, ltb, ◌==◌, false, length-append, length-take, take-append_self,
  lt-cases, eq-cases, lt→ltb, le→ltb, ne→==, eq→==, append_assoc, append-nil, take_all,
  if◌then◌else◌, Result, ok, ◌≢◌, none,
}
use nightfall.Timber.Tree.{
  Tree, leaf, HashType, Error, zero_value, insert_leaf_at, prune_right_sub_tree,
}
use nightfall.Timber.Path.{path_to}
use nightfall.Timber.Paths.{path_to-eq-bits}
use nightfall.Timber.Dense.{build, build-nil, insert_leaf_at-build, prune_right_sub_tree-build}
use nightfall.Timber.Object.{Timber, insert_from, with_tree, insert_leaf, insert_leaves, rollback}
use nightfall.Timber.Contract.{Holds, with_tree-Holds, Holds-root, Holds-determines}
use nightfall.Timber.Rooted.{insert_leaves-Rooted, rollback-Rooted}

insert_at-path :
    (h : ℕ) (xs : List ℕ) (v : ℕ)
    → 0 < h
    → length xs < 2 ^ h
    → insert_leaf_at v (build h xs) (path_to h (length xs)) ≡ build h (xs ++ v ∷ [])
insert_at-path h xs v tall lt =
    rw (path_to-eq-bits h (length xs) tall lt) (insert_leaf_at-build h xs v lt)

length-snoc : (xs : List ℕ) (v : ℕ) → length (xs ++ v ∷ []) ≡ length xs + 1
length-snoc xs v = length-append xs (v ∷ [])

-- The loop of `insertLeaves` appends the values in their order.
insert_from-build :
    (h : ℕ) (xs vs : List ℕ)
    → 0 < h
    → length xs + length vs ≤ 2 ^ h
    → insert_from h (length xs) (build h xs) vs ≡ build h (xs ++ vs)
unfolding insert_from
insert_from-build h xs [] tall fits = ap (build h) (sym (append-nil xs))
insert_from-build h xs (v ∷ vs) tall fits =
    let next : suc (length xs) ≡ length (xs ++ v ∷ []) = omega (arith, length-snoc xs v) in
    rw (insert_at-path h xs v tall (omega arith), next)
      (insert_from-build h (xs ++ v ∷ []) vs tall (omega (arith, length-snoc xs v))
        ∙ ap (build h) (append_assoc xs (v ∷ []) vs))

abbrev pub Becomes : (HashType → ℕ → ℕ → ℕ) → Timber → Result Error Timber → List ℕ → Type 0
Becomes hash t r ys =
    (t' : Timber) × (r ≡ ok t')
    × Holds hash t' ys
    × (t'.height ≡ t.height)
    × (t'.hash_type ≡ t.hash_type)

ok_injective : (t u : Timber) → ◌≡◌ {A = Result Error Timber} (ok t) (ok u) → t ≡ u
ok_injective t u e = cc

module _ (hash : HashType → ℕ → ℕ → ℕ) where
  step :
      (t : Timber) (xs ys : List ℕ) (tree : Tree) (n : ℕ)
      → Holds hash t xs
      → tree ≡ build t.height ys
      → n ≡ length ys
      → length ys ≤ 2 ^ t.height
      → Becomes hash t (with_tree hash t tree n) ys
  step t xs ys tree n held e count fits =
      rw (e, count) (with_tree-Holds hash t ys held.tall held.width fits)

  -- On an object that holds a list, while there is room, `insertLeaf` returns, and the object then
  -- holds the list with the value at its end; the height and the kind of hash stay.
  pub insert_leaf-Holds :
      (t : Timber) (xs : List ℕ) (v : ℕ)
      → Holds hash t xs
      → length xs < 2 ^ t.height
      → Becomes hash t (insert_leaf hash t v) (xs ++ v ∷ [])
  unfolding insert_leaf
  insert_leaf-Holds t xs v held room =
      let open_width : (t.leaf_count == t.width) ≡ false =
        ne→== t.leaf_count t.width (omega (arith, held.count, held.width)) in
      rw open_width (
        step t xs (xs ++ v ∷ []) (insert_leaf_at v t.tree (path_to t.height t.leaf_count))
          (t.leaf_count + 1) held
          (rw (held.tree, held.count) (insert_at-path t.height xs v held.tall room))
          (omega (arith, held.count, length-snoc xs v)) (omega (arith, length-snoc xs v)))

  -- On an object that holds a list, when the values fit, `insertLeaves` returns, and the object then
  -- holds the list with the values at its end; the height and the kind of hash stay.
  pub insert_leaves-Holds :
      (t : Timber) (xs vs : List ℕ)
      → Holds hash t xs
      → length xs + length vs ≤ 2 ^ t.height
      → Becomes hash t (insert_leaves hash t vs) (xs ++ vs)
  unfolding insert_leaves
  insert_leaves-Holds t xs [] held room = (t, refl, rw append-nil held, refl, refl)
  insert_leaves-Holds t xs (v ∷ vs) held room =
      let wide : ltb t.width (t.leaf_count + length (v ∷ vs)) ≡ false =
        le→ltb _ _ (omega (arith, held.count, held.width)) in
      let many : (length (v ∷ vs) == 0) ≡ false = ne→== (length (v ∷ vs)) 0 (omega arith) in
      rw (many, wide)
        (step t xs (xs ++ v ∷ vs) (insert_from t.height t.leaf_count t.tree (v ∷ vs))
          (t.leaf_count + length (v ∷ vs)) held
          (rw (held.tree, held.count) (insert_from-build t.height xs (v ∷ vs) held.tall room))
          (omega (arith, held.count, length-append xs (v ∷ vs)))
          (omega (arith, length-append xs (v ∷ vs))))

  rollback_to :
      (t : Timber) (xs : List ℕ) (n : ℕ)
      → Holds hash t xs
      → n < length xs
      → (if n == 0 then leaf zero_value else prune_right_sub_tree t.tree (path_to t.height (n - 1)))
        ≡ build t.height (take n xs)
  rollback_to t xs zero held lt = sym (build-nil t.height)
  rollback_to t xs (suc m) held lt =
      rw
        (
          ne→== (suc m) 0 (omega arith),
          suc_pred m,
          path_to-eq-bits t.height m held.tall (omega (arith, held.fits)),
          held.tree,
        )
        (prune_right_sub_tree-build t.height xs m (omega arith) held.fits)
    where
      suc_pred : (k : ℕ) → suc k - 1 ≡ k
      suc_pred k = omega arith

  -- On an object that holds a list, `rollback` to a count that is not above the object's returns,
  -- and the object then holds the first leaves of the list, as many as the count says; the height
  -- and the kind of hash stay.
  pub rollback-Holds :
      (t : Timber) (xs : List ℕ) (n : ℕ)
      → Holds hash t xs
      → n ≤ length xs
      → Becomes hash t (rollback hash t n) (take n xs)
  unfolding rollback
  rollback-Holds t xs n held le =
      let below : ltb t.leaf_count n ≡ false = le→ltb _ _ (omega (arith, held.count)) in
      elim (eq-cases n t.leaf_count) [
        | inl same ↦
            rw (below, eq→== n t.leaf_count same)
              (t, refl, rw (take_all n xs (omega (arith, held.count))) held, refl, refl)
        | inr other ↦
            rw (below, ne→== n t.leaf_count other)
              (step t xs (take n xs)
                (if n == 0
                  then leaf zero_value
                  else prune_right_sub_tree t.tree (path_to t.height (n - 1)))
                n held (rollback_to t xs n held (omega (arith, held.count)))
                (omega (arith, length-take n xs)) (omega (arith, length-take n xs, held.fits)))
      ]

  pub insert_leaves-room :
      (t t' : Timber) (xs vs : List ℕ)
      → Holds hash t xs
      → insert_leaves hash t vs ≡ ok t'
      → length xs + length vs ≤ 2 ^ t.height
  unfolding insert_leaves
  insert_leaves-room t t' xs [] held done = omega (arith, held.fits)
  insert_leaves-room t t' xs (v ∷ vs) held done =
      elim (lt-cases t.width (t.leaf_count + length (v ∷ vs))) [
        | inl over ↦
            absurd (cc (rw (ne→== (length (v ∷ vs)) 0 (omega arith), lt→ltb _ _ over) at done))
        | inr room ↦ omega (arith, held.count, held.width)
      ]

  -- On an object that holds a list, and whose root is not the Number 0 that the constructor gives it,
  -- if `insertLeaves` returns an object, then `rollback` of that to the count before restores the
  -- object: tree, root, frontier and all.
  pub rollback-insert_leaves :
      (t t' : Timber) (xs vs : List ℕ)
      → Holds hash t xs
      → t.root ≢ none
      → insert_leaves hash t vs ≡ ok t'
      → rollback hash t' t.leaf_count ≡ ok t
  rollback-insert_leaves t t' xs vs held rooted inserted =
      let (u, eu, held_u, height_u, hash_u) =
        insert_leaves-Holds t xs vs held (insert_leaves-room t t' xs vs held inserted) in
      let same : t' ≡ u = ok_injective t' u (cc (eu, inserted)) in
      let (w, ew, held_w, height_w, hash_w) =
        rollback-Holds u (xs ++ vs) t.leaf_count held_u
          (omega (arith, held.count, length-append xs vs)) in
      let kept : take t.leaf_count (xs ++ vs) ≡ xs = rw held.count (take-append_self xs vs) in
      let height = height_w ∙ height_u in
      let hash_kind = hash_w ∙ hash_u in
      let held' : Holds hash w xs = subst (Holds hash w) kept held_w in
      let rooted' =
        rollback-Rooted hash u w t.leaf_count (insert_leaves-Rooted hash t u vs rooted eu) ew in
      let same_root : w.root ≡ t.root =
        cc (
          Holds-root hash w xs held' rooted',
          Holds-root hash t xs held rooted,
          height,
          hash_kind,
        ) in
      let back : w ≡ t = Holds-determines hash w t xs held' held same_root height hash_kind in
      ap (λ s. rollback hash s t.leaf_count) same ∙ ew ∙ ap ok back
