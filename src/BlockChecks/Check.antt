-- ===== src/BlockChecks/Check.antt =====
-- `checkBlock` of nightfall-optimist/src/services/check-block.mjs. Its five checks run at once and the
-- first to fail is reported; here they run in the order in which they are written.
use nightfall.Common.{
  ℕ, zero, suc, ◌+◌, Option, none, some, List, [], ◌∷◌, ltb, ◌==◌, if◌then◌else◌, Result, ok,
  throws, ◌>>=◌, ◌>>◌,
}
use nightfall.BlockAssembler.Mempool.{Transaction}
use nightfall.BlockChecks.Duplicates.{Duplicate, check_duplicates_within_block}

pub record Block : Type 0 where
  pub leaf_count : ℕ
  pub n_commitments : ℕ
  pub block_number_l2 : ℕ
  pub root : ℕ
  pub frontier_hash : ℕ

-- `no_block` is the TypeError of a missing document; the others are the errors of the class BlockError,
-- the last with the code of the transaction's error.
pub data BlockError : Type 0 where
  no_block leaf_count_not_correct root_not_correct frontier_not_correct : BlockError
  duplicate_commitments duplicate_nullifiers : Duplicate → BlockError
  transaction_check_failed : ℕ → BlockError

-- The code that tells the challenge which fraud it is.
abbrev pub code : BlockError → Option ℕ
code no_block = none
code leaf_count_not_correct = some 0
code root_not_correct = some 1
code (duplicate_commitments d) = some 2
code (duplicate_nullifiers d) = some 3
code frontier_not_correct = some 6
code (transaction_check_failed c) = some (c + 2)

-- What the checks read: `getBlockByBlockNumberL2`, the root of `getTreeByLeafCount` once it is there, and
-- the frontier of `getTreeByBlockNumberL2`.
pub record Database : Type 0 where
  pub block_by_number : ℕ → Option Block
  pub root_by_leaf_count : ℕ → ℕ
  pub frontier_by_number : ℕ → List ℕ

-- `getBlockByBlockNumberL2(blockNumberL2 - 1)`
abbrev pub prior_block : Database → ℕ → Option Block
prior_block db zero = none
prior_block db (suc n) = db.block_by_number n

abbrev pub must_be : ℕ → ℕ → BlockError → Result BlockError (Unit {0})
must_be m n e = if m == n then ok tt else throws e

abbrev pub found : Option Block → Result BlockError Block
found none = throws no_block
found (some b) = ok b

unfoldable pub check_leaf_count : Database → Block → Result BlockError (Unit {0})
check_leaf_count db block = do
  current ← found (db.block_by_number block.block_number_l2)
  if ltb 0 block.block_number_l2
      then (do
        prior ← found (prior_block db block.block_number_l2)
        must_be (prior.leaf_count + current.n_commitments) block.leaf_count leaf_count_not_correct)
      else must_be current.n_commitments block.leaf_count leaf_count_not_correct

unfoldable pub check_block_root : Database → Block → Result BlockError (Unit {0})
check_block_root db block =
    if block.n_commitments == 0
    then (do
      history ← found (prior_block db block.block_number_l2)
      must_be history.root block.root root_not_correct)
    else must_be (db.root_by_leaf_count block.leaf_count) block.root root_not_correct

unfoldable pub rethrow :
    (Duplicate → BlockError) → Result Duplicate (Unit {0}) → Result BlockError (Unit {0})
rethrow e (ok x) = ok x
rethrow e (throws d) = throws (e d)

-- The `catch` of the loop: an error of a transaction is thrown on, with its code.
abbrev pub unless : Option ℕ → Result BlockError (Unit {0}) → Result BlockError (Unit {0})
unless none rest = rest
unless (some c) rest = throws (transaction_check_failed c)

-- `calc_frontier_hash` is Block.calcFrontierHash, `check_transaction` the answer of checkTransaction: the
-- code of its error, or none.
module _ (calc_frontier_hash : List ℕ → ℕ) (check_transaction : Transaction → ℕ → Option ℕ) where
  unfoldable pub check_frontier : Database → Block → Result BlockError (Unit {0})
  check_frontier db block =
      must_be (calc_frontier_hash (db.frontier_by_number block.block_number_l2)) block.frontier_hash
        frontier_not_correct

  unfoldable pub check_transactions : List Transaction → ℕ → Result BlockError (Unit {0})
  check_transactions [] block_number_l2 = ok tt
  check_transactions (tx ∷ txs) block_number_l2 =
      unless (check_transaction tx block_number_l2) (check_transactions txs block_number_l2)

  unfoldable pub check_block : Database → Block → List Transaction → Result BlockError (Unit {0})
  unfolding check_leaf_count check_block_root check_frontier check_duplicates_within_block
      check_transactions rethrow
  check_block db block txs = do
    check_leaf_count db block
    check_block_root db block
    check_frontier db block
    rethrow duplicate_commitments
        (check_duplicates_within_block (λ (tx : Transaction). tx.commitments) txs)
    rethrow duplicate_nullifiers
        (check_duplicates_within_block (λ (tx : Transaction). tx.nullifiers) txs)
    check_transactions txs block.block_number_l2
