-- ===== src/BlockChecks/Acceptance.antt =====
-- `checkBlock` of nightfall-optimist/src/services/check-block.mjs returns for every valid block.
use nightfall.Common.{
  ℕ, zero, suc, ◌+◌, ◌<◌, ◌≡◌, ◌≢◌, refl, sym, ap, ◌∙◌, inl, inr, Option, some, List, [], ◌∷◌,
  get_elem?, arith, eq-cases, lt→ltb, le→ltb, eq→==, ne→==, ok,
}
use nightfall.BlockAssembler.Mempool.{Transaction}
use nightfall.BlockChecks.Duplicates.{find_duplicate, check_duplicates_within_block}
use nightfall.BlockChecks.Check.{
  Block, BlockError, leaf_count_not_correct, root_not_correct, Database, prior_block, must_be,
  check_leaf_count, check_block_root, rethrow, unless, check_frontier, check_transactions,
  check_block,
}
use nightfall.BlockChecks.Distinct.{NoneIs, Distinct, find_duplicate-Twice}
use nightfall.BlockChecks.Accepted.{values_of, at_start}
use nightfall.BlockChecks.Verdicts.{LeavesAddUp, RootAgrees, AllPass, Valid}

NoneIs-at : (x k : ℕ) (ys : List ℕ) → NoneIs x ys → get_elem? ys k ≢ some x
NoneIs-at x k [] other h = absurd (cc h)
NoneIs-at x zero (y ∷ ys) (ne, other) h = ne (same_value h)
  where
    same_value : ◌≡◌ {A = Option ℕ} (some y) (some x) → x ≡ y
    same_value h = cc
NoneIs-at x (suc k) (y ∷ ys) (ne, other) h = NoneIs-at x k ys other h

not-Twice :
    (i j x : ℕ) (values : List ℕ)
    → Distinct values
    → i < j
    → get_elem? values i ≡ some x
    → get_elem? values j ≢ some x
not-Twice i j x [] distinct lt at_i at_j = absurd (cc at_i)
not-Twice zero zero x (v ∷ values) distinct lt at_i at_j = absurd (omega arith)
not-Twice zero (suc j) x (v ∷ values) (new, distinct) lt at_i at_j =
    NoneIs-at v j values new (at_j ∙ sym at_i)
not-Twice (suc i) zero x (v ∷ values) distinct lt at_i at_j = absurd (omega arith)
not-Twice (suc i) (suc j) x (v ∷ values) (new, distinct) lt at_i at_j =
    not-Twice i j x values distinct (omega arith) at_i at_j

check_duplicates_within_block_passes :
    (field : Transaction → List ℕ) (txs : List Transaction)
    → Distinct (values_of field txs)
    → check_duplicates_within_block field txs ≡ ok tt
unfolding check_duplicates_within_block
check_duplicates_within_block_passes field txs distinct =
    elim (eq-cases (find_duplicate (values_of field txs) 0 (values_of field txs)).1 0) [
      | inl e ↦ rw (eq→== (find_duplicate (values_of field txs) 0 (values_of field txs)).1 0 e) refl
      | inr ne ↦
          let (x, lt, first, second) =
            find_duplicate-Twice (values_of field txs) 0 (values_of field txs)
              (at_start (values_of field txs)) ne in
          absurd (not-Twice _ _ x (values_of field txs) distinct lt first second)
    ]

must_be_passes : (m n : ℕ) (e : BlockError) → m ≡ n → must_be m n e ≡ ok tt
must_be_passes m n e same = rw (eq→== m n same) refl

prior_block-pos : (db : Database) (n : ℕ) (b : Block) → prior_block db n ≡ some b → 0 < n
prior_block-pos db zero b h = absurd (cc h)
prior_block-pos db (suc n) b h = omega arith

check_leaf_count_passes :
    (db : Database) (block : Block) → LeavesAddUp db block → check_leaf_count db block ≡ ok tt
unfolding check_leaf_count
check_leaf_count_passes db block (current, is_current, inl (first, same)) =
    rw (is_current, le→ltb 0 block.block_number_l2 (omega (arith, first)))
      (must_be_passes current.n_commitments block.leaf_count leaf_count_not_correct same)
check_leaf_count_passes db block (current, is_current, inr (prior, is_prior, same)) =
    rw
      (
        is_current,
        lt→ltb 0 block.block_number_l2 (prior_block-pos db block.block_number_l2 prior is_prior),
        is_prior,
      )
      (must_be_passes (prior.leaf_count + current.n_commitments) block.leaf_count
        leaf_count_not_correct same)

check_block_root_passes :
    (db : Database) (block : Block) → RootAgrees db block → check_block_root db block ≡ ok tt
unfolding check_block_root
check_block_root_passes db block (inl (e, prior, is_prior, same)) =
    rw (eq→== block.n_commitments 0 e, is_prior)
      (must_be_passes prior.root block.root root_not_correct same)
check_block_root_passes db block (inr (ne, same)) =
    rw (ne→== block.n_commitments 0 ne)
      (must_be_passes (db.root_by_leaf_count block.leaf_count) block.root root_not_correct same)

module _ (calc_frontier_hash : List ℕ → ℕ) (check_transaction : Transaction → ℕ → Option ℕ) where
  check_transactions_passes :
      (txs : List Transaction) (n : ℕ)
      → AllPass calc_frontier_hash check_transaction txs n
      → check_transactions calc_frontier_hash check_transaction txs n ≡ ok tt
  unfolding check_transactions
  check_transactions_passes [] n all = refl
  check_transactions_passes (tx ∷ txs) n (passes, all) =
      ap (λ o. unless o (check_transactions calc_frontier_hash check_transaction txs n)) passes
      ∙ check_transactions_passes txs n all

  -- For a block whose leaf count adds up, whose root and frontier agree, in which no commitment
  -- and no nullifier other than zero stands twice, and whose transactions all pass, `checkBlock`
  -- returns.
  pub check_block-accepts :
      (db : Database) (block : Block) (txs : List Transaction)
      → Valid calc_frontier_hash check_transaction db block txs
      → check_block calc_frontier_hash check_transaction db block txs ≡ ok tt
  unfolding check_block check_frontier rethrow
  check_block-accepts db block txs valid =
      rw
        (
          check_leaf_count_passes db block valid.leaves_add_up,
          check_block_root_passes db block valid.root_agrees,
          eq→== _ _ valid.frontier_agrees,
          check_duplicates_within_block_passes (λ (tx : Transaction). tx.commitments) txs
              valid.commitments_differ,
          check_duplicates_within_block_passes (λ (tx : Transaction). tx.nullifiers) txs
              valid.nullifiers_differ,
        )
        (check_transactions_passes txs block.block_number_l2 valid.transactions_pass)
