-- ===== src/Timber/Order.antt =====
-- The order of insertions into the class `Timber` of common-files/classes/timber.mjs does not
-- depend on how the leaves are grouped: one by one, in the batches of `batchLeaves`, or all at once.
use nightfall.Common.{
  ◌≢◌, concat, ℕ, ◌+◌, ◌^◌, ◌≤◌, ◌≡◌, refl, sym, ap, ◌∙◌, subst, List, [], ◌∷◌, ◌++◌, length, arith,
  length-append, append_assoc, append-nil, Result, ok, ◌>>=◌,
}
use nightfall.Timber.Tree.{HashType, Error}
use nightfall.Timber.Batch.{batch_leaves, concat-batch_leaves}
use nightfall.Timber.Object.{Timber, insert_leaf, insert_leaves}
use nightfall.Timber.Contract.{Holds, Holds-roots, Holds-determines}
use nightfall.Timber.History.{Becomes, insert_leaf-Holds, insert_leaves-Holds}

append-not_nil : (xs : List ℕ) (v : ℕ) (vs : List ℕ) → xs ++ v ∷ vs ≢ []
append-not_nil [] v vs e = cc e
append-not_nil (x ∷ xs) v vs e = cc e

module _ (hash : HashType → ℕ → ℕ → ℕ) where
  -- `leavesInsertOrder.reduce((acc, curr) => acc.insertLeaves(curr), timber)`
  unfoldable pub insert_batches : Timber → List (List ℕ) → Result Error Timber
  unfolding insert_leaves
  insert_batches t [] = ok t
  insert_batches t (b ∷ bs) = insert_leaves hash t b >>= λ u. insert_batches u bs

  -- `insertLeaf` for each value in turn.
  unfoldable pub insert_each : Timber → List ℕ → Result Error Timber
  unfolding insert_leaf
  insert_each t [] = ok t
  insert_each t (v ∷ vs) = insert_leaf hash t v >>= λ u. insert_each u vs

  insert_batches-Holds :
      (t : Timber) (xs : List ℕ) (bs : List (List ℕ))
      → Holds hash t xs
      → length xs + length (concat bs) ≤ 2 ^ t.height
      → Becomes hash t (insert_batches t bs) (xs ++ concat bs)
  unfolding insert_batches
  insert_batches-Holds t xs [] held room = (t, refl, rw append-nil held, refl, refl)
  insert_batches-Holds t xs (b ∷ bs) held room =
      let (u, e, held_u, height, kind) =
        insert_leaves-Holds hash t xs b held (omega (arith, length-append b (concat bs))) in
      let (w, e', held_w, height', kind') = insert_batches-Holds u (xs ++ b) bs held_u (
        omega (
          arith,
          height,
          ap (λ k. 2 ^ k) height,
          length-append xs b,
          length-append b (concat bs),
        )) in
      (w, rw e e', rw (← append_assoc xs b (concat bs)) held_w, height' ∙ height, kind' ∙ kind)

  insert_each-Holds :
      (t : Timber) (xs vs : List ℕ)
      → Holds hash t xs
      → length xs + length vs ≤ 2 ^ t.height
      → Becomes hash t (insert_each t vs) (xs ++ vs)
  unfolding insert_each
  insert_each-Holds t xs [] held room = (t, refl, rw append-nil held, refl, refl)
  insert_each-Holds t xs (v ∷ vs) held room =
      let (u, e, held_u, height, kind) = insert_leaf-Holds hash t xs v held (omega arith) in
      let (w, e', held_w, height', kind') =
        insert_each-Holds u (xs ++ v ∷ []) vs held_u
          (omega (arith, ap (λ k. 2 ^ k) height, length-append xs (v ∷ []))) in
      (w, rw e e', rw (← append_assoc xs (v ∷ []) vs) held_w, height' ∙ height, kind' ∙ kind)

  same_end :
      (t : Timber) (ys : List ℕ) (r s : Result Error Timber)
      → Becomes hash t r ys
      → Becomes hash t s ys
      → ys ≢ []
      → r ≡ s
  same_end t ys r s (u, e, held_u, height, kind) (w, e', held_w, height', kind') some_leaf =
      let h = height ∙ sym height' in
      let k = kind ∙ sym kind' in
      e
      ∙ ap ok (
          Holds-determines hash u w ys held_u held_w
            (Holds-roots hash u w ys held_u held_w h k some_leaf) h k)
      ∙ sym e'

  -- On an object that holds a list and has room, inserting the values one by one gives the object
  -- that inserting them all at once gives.
  pub insert_each-eq-insert_leaves :
      (t : Timber) (xs vs : List ℕ)
      → Holds hash t xs
      → length xs + length vs ≤ 2 ^ t.height
      → insert_each t vs ≡ insert_leaves hash t vs
  unfolding insert_each insert_leaves
  insert_each-eq-insert_leaves t xs [] held room = refl
  insert_each-eq-insert_leaves t xs (v ∷ vs) held room =
      same_end t (xs ++ v ∷ vs) (insert_each t (v ∷ vs)) (insert_leaves hash t (v ∷ vs))
        (insert_each-Holds t xs (v ∷ vs) held room)
        (insert_leaves-Holds hash t xs (v ∷ vs) held room) (append-not_nil xs v vs)

  -- On an object that holds a list and has room, inserting the batches of `batchLeaves`, one after
  -- the other, gives the object that inserting all values at once gives.
  pub insert_batches-batch_leaves :
      (t : Timber) (xs vs : List ℕ)
      → Holds hash t xs
      → length xs + length vs ≤ 2 ^ t.height
      → insert_batches t (batch_leaves t.leaf_count vs []) ≡ insert_leaves hash t vs
  unfolding insert_batches insert_leaves batch_leaves
  insert_batches-batch_leaves t xs [] held room = refl
  insert_batches-batch_leaves t xs (v ∷ ws) held room =
      let vs : List ℕ = v ∷ ws in
      let bs : List (List ℕ) = batch_leaves t.leaf_count vs [] in
      let all : concat bs ≡ vs = concat-batch_leaves t.leaf_count vs in
      same_end t (xs ++ vs) (insert_batches t bs) (insert_leaves hash t vs)
        (subst (λ ws. Becomes hash t (insert_batches t bs) (xs ++ ws)) all
          (insert_batches-Holds t xs bs held (omega (arith, ap length all))))
        (insert_leaves-Holds hash t xs vs held room) (append-not_nil xs v ws)
