-- ===== src/Timber/Batch.antt =====
-- `batchLeaves` of common-files/classes/timber.mjs: the leaves are cut into the batches in which
-- the stateless operations insert them.
use nightfall.Common.{
  concat, ℕ, zero, suc, ◌+◌, ◌/◌, ◌%◌, ◌^◌, ◌<◌, ◌≡◌, sym, ap, ◌∙◌, inl, inr, Option, none, some,
  List, [], ◌∷◌, ◌++◌, map, length, take, drop, Bool, true, false, not, ◌==◌, if◌then◌else◌,
  append-nil, append_assoc, arith, Option-cases, ne→==, length-drop, take-append-drop, two-pow-pos,
}
use nightfall.Timber.Frontier.{floor_log2, ceil_log2, keys}

-- `Array(n).fill(count).map((a, i) => Math.floor(a / 2 ** i))`: the perfect trees at each depth.
unfoldable pub slot_array : ℕ → ℕ → List ℕ
slot_array n count = map (λ i. count / 2 ^ i) (keys n)

-- `findIndex(a => a)`
unfoldable pub first_true : List Bool → Option ℕ
first_true [] = none
first_true (true ∷ bs) = some 0
first_true (false ∷ bs) = elim (first_true bs) [ none ↦ none | some i ↦ some (suc i) ]

-- The lowest depth below the height of the new leaves' tree at which the count is odd.
unfoldable pub odd_index : ℕ → ℕ → Option ℕ
unfolding slot_array first_true floor_log2 ceil_log2
odd_index original_leaf_count n =
    let output_frontier_length = floor_log2 (original_leaf_count + n) + 1 in
    let sub_tree_height = ceil_log2 n in
    first_true (
      map (λ a. not (a % 2 == 0))
        (take sub_tree_height (slot_array output_frontier_length original_leaf_count)))

-- The fuel is above the number of leaves, which falls in the recursive call.
unfoldable pub batch_leaves_from : ℕ → ℕ → List ℕ → List (List ℕ) → List (List ℕ)
unfolding odd_index
batch_leaves_from zero original_leaf_count leaves acc = acc
batch_leaves_from (suc fuel) original_leaf_count leaves acc =
    if length leaves == 0 then acc else elim (odd_index original_leaf_count (length leaves)) [
      | none ↦ acc ++ leaves ∷ []
      | some i ↦
          batch_leaves_from fuel (original_leaf_count + 2 ^ i) (drop (2 ^ i) leaves)
            (acc ++ take (2 ^ i) leaves ∷ [])
    ]

unfoldable pub batch_leaves : ℕ → List ℕ → List (List ℕ) → List (List ℕ)
unfolding batch_leaves_from
batch_leaves original_leaf_count leaves acc =
    batch_leaves_from (length leaves + 1) original_leaf_count leaves acc

-- The batches, one after the other.
concat-snoc : (xss : List (List ℕ)) (xs : List ℕ) → concat (xss ++ xs ∷ []) ≡ concat xss ++ xs
concat-snoc [] xs = append-nil xs
concat-snoc (ys ∷ xss) xs =
    ap (λ zs. ys ++ zs) (concat-snoc xss xs) ∙ sym (append_assoc ys (concat xss) xs)

concat-batch_leaves_from :
    (fuel n : ℕ) (leaves : List ℕ) (acc : List (List ℕ))
    → length leaves < fuel
    → concat (batch_leaves_from fuel n leaves acc) ≡ concat acc ++ leaves
unfolding batch_leaves_from
concat-batch_leaves_from zero n leaves acc enough = absurd (omega arith)
concat-batch_leaves_from (suc fuel) n [] acc enough = sym (append-nil (concat acc))
concat-batch_leaves_from (suc fuel) n (x ∷ xs) acc enough =
    elim (Option-cases (odd_index n (length (x ∷ xs)))) [
      | inl even ↦ rw (ne→== (length (x ∷ xs)) 0 (omega arith), even) (concat-snoc acc (x ∷ xs))
      | inr (i, found) ↦
          let xs' : List ℕ = x ∷ xs in
          rw (ne→== (length (x ∷ xs)) 0 (omega arith), found)
            (concat-batch_leaves_from fuel (n + 2 ^ i) (drop (2 ^ i) xs')
                (acc ++ take (2 ^ i) xs' ∷ [])
                (omega (arith, length-drop (2 ^ i) xs', two-pow-pos i))
              ∙ ap (λ ys. ys ++ drop (2 ^ i) xs') (concat-snoc acc (take (2 ^ i) xs'))
              ∙ append_assoc (concat acc) (take (2 ^ i) xs') (drop (2 ^ i) xs')
              ∙ ap (λ ys. concat acc ++ ys) (take-append-drop (2 ^ i) xs'))
    ]

-- The batches, one after the other, are the leaves in their order, whatever the count was.
pub concat-batch_leaves : (n : ℕ) (leaves : List ℕ) → concat (batch_leaves n leaves []) ≡ leaves
unfolding batch_leaves
concat-batch_leaves n leaves =
    concat-batch_leaves_from (length leaves + 1) n leaves [] (omega arith)
