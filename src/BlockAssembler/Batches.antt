-- ===== src/BlockAssembler/Batches.antt =====
-- The batches of `conditionalMakeBlock` in nightfall-optimist/src/services/block-assembler.mjs, as
-- lists of transactions rather than positions where they end.
use nightfall.Common.{
  ℕ, zero, suc, ◌+◌, ◌-◌, ◌≡◌, refl, sym, ap, ◌∙◌, List, [], ◌∷◌, ◌++◌, map, length, take, drop,
  concat, drop-nil, add-suc_left, subst, ltb, if◌then◌else◌, arith, append_assoc, append-nil,
  length-append, take-append_self, lt-cases, lt→ltb, le→ltb, inl, inr,
}
use nightfall.BlockAssembler.Mempool.{Transaction}
use nightfall.BlockAssembler.Assembly.{transaction_size, sum, batch_ends, slices}

abbrev pub size_of : List Transaction → ℕ
size_of txs = sum (map transaction_size txs)

-- A block is closed when the next transaction no longer fits; `block` is the one that is open.
abbrev pub closed_blocks : ℕ → List Transaction → List Transaction → List (List Transaction)
closed_blocks limit block [] = []
closed_blocks limit block (tx ∷ txs) =
    if ltb limit (size_of block + transaction_size tx)
    then block ∷ closed_blocks limit (tx ∷ []) txs
    else closed_blocks limit (block ++ tx ∷ []) txs

-- The block that is open at the end.
abbrev pub open_block : ℕ → List Transaction → List Transaction → List Transaction
open_block limit block [] = block
open_block limit block (tx ∷ txs) =
    if ltb limit (size_of block + transaction_size tx)
    then open_block limit (tx ∷ []) txs
    else open_block limit (block ++ tx ∷ []) txs

pub size_of-append : (xs ys : List Transaction) → size_of (xs ++ ys) ≡ size_of xs + size_of ys
size_of-append [] ys = omega arith
size_of-append (x ∷ xs) ys = omega (arith, size_of-append xs ys)

drop-drop : {A : Type 0} (m n : ℕ) (xs : List A) → drop (m + n) xs ≡ drop n (drop m xs)
drop-drop zero n xs = ap (λ k. drop k xs) (zero_add n)
  where
    zero_add : (k : ℕ) → 0 + k ≡ k
    zero_add k = omega arith
drop-drop (suc m) n [] = ap (λ k. drop k []) (add-suc_left m n) ∙ sym (drop-nil n)
drop-drop (suc m) n (x ∷ xs) = ap (λ k. drop k (x ∷ xs)) (add-suc_left m n) ∙ drop-drop m n xs

drop-append_self : {A : Type 0} (xs ys : List A) → drop (length xs) (xs ++ ys) ≡ ys
drop-append_self [] ys = refl
drop-append_self (x ∷ xs) ys = drop-append_self xs ys

-- For a block that is open from `start` on, the slices of the transactions between the ends that the
-- loop collects are the blocks closed when the next transaction no longer fits.
pub slices-batch_ends :
    (limit start i : ℕ) (block rest txs : List Transaction)
    → i ≡ start + length block
    → drop start txs ≡ block ++ rest
    → slices start (batch_ends limit i (size_of block) (map transaction_size rest)) txs
      ≡ closed_blocks limit block rest
unfolding slices batch_ends
slices-batch_ends limit start i block [] txs at same = refl
slices-batch_ends limit start i block (tx ∷ rest) txs at same =
    elim (lt-cases limit (size_of block + transaction_size tx)) [
      | inl over ↦
          let closes : take (i - start) (drop start txs) ≡ block =
            ap (λ n. take n (drop start txs)) (distance start at)
            ∙ ap (take (length block)) same
            ∙ take-append_self block (tx ∷ rest) in
          let next : slices i
                (batch_ends limit (suc i) (transaction_size tx) (map transaction_size rest)) txs
              ≡ closed_blocks limit (tx ∷ []) rest =
            subst
              (λ n.
                slices i (batch_ends limit (suc i) n (map transaction_size rest)) txs
                ≡ closed_blocks limit (tx ∷ []) rest)
              (size_of_one tx)
              (slices-batch_ends limit i (suc i) (tx ∷ []) rest txs (omega arith) (
                ap (λ n. drop n txs) at
                ∙ drop-drop start (length block) txs
                ∙ ap (drop (length block)) same
                ∙ drop-append_self block (tx ∷ rest))) in
          rw (lt→ltb _ _ over) (λ k. closes k ∷ next k)
      | inr fits ↦ rw (le→ltb _ _ fits) (
          subst
            (λ n.
              slices start (batch_ends limit (suc i) n (map transaction_size rest)) txs
              ≡ closed_blocks limit (block ++ tx ∷ []) rest)
            (size_of-append block (tx ∷ []) ∙ ap (λ n. size_of block + n) (size_of_one tx))
            (slices-batch_ends limit start (suc i) (block ++ tx ∷ []) rest txs
              (omega (arith, length-append block (tx ∷ [])))
              (same ∙ sym (append_assoc block (tx ∷ []) rest))))
    ]
  where
    distance : {i n : ℕ} (start : ℕ) → i ≡ start + n → i - start ≡ n
    distance start h = omega arith

    size_of_one : (tx : Transaction) → size_of (tx ∷ []) ≡ transaction_size tx
    size_of_one tx = omega arith

-- No transaction is lost or moved.
pub closed_blocks_complete :
    (limit : ℕ) (block rest : List Transaction)
    → concat (closed_blocks limit block rest) ++ open_block limit block rest ≡ block ++ rest
closed_blocks_complete limit block [] = sym (append-nil block)
closed_blocks_complete limit block (tx ∷ rest) =
    elim (lt-cases limit (size_of block + transaction_size tx)) [
      | inl over ↦ rw (lt→ltb _ _ over) (
          append_assoc block (concat (closed_blocks limit (tx ∷ []) rest))
            (open_block limit (tx ∷ []) rest)
          ∙ ap (λ l. block ++ l) (closed_blocks_complete limit (tx ∷ []) rest))
      | inr fits ↦
          rw (le→ltb _ _ fits) (
            closed_blocks_complete limit (block ++ tx ∷ []) rest
            ∙ append_assoc block (tx ∷ []) rest)
    ]
