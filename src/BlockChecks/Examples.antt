-- ===== src/BlockChecks/Examples.antt =====
-- Tests of the model of nightfall-optimist/src/services/check-block.mjs on a block of two transactions,
-- and the theorems about it at that block.
use nightfall.Common.{
  inr, arith, ℕ, zero, suc, ◌+◌, ◌≡◌, refl, Option, none, some, List, [], ◌∷◌, ◌==◌, length,
  if◌then◌else◌, ok, throws,
}
use nightfall.BlockAssembler.Mempool.{Transaction}
use nightfall.BlockChecks.Duplicates.{Duplicate, block_items, check_duplicates_within_block}
use nightfall.BlockChecks.Distinct.{Distinct}
use nightfall.BlockChecks.Check.{Block, root_not_correct, Database, check_block}
use nightfall.BlockChecks.Accepted.{
  values_of, Genuine, check_duplicates_within_block-Distinct, check_duplicates_within_block-Genuine,
}
use nightfall.BlockChecks.Acceptance.{check_block-accepts}
use nightfall.BlockChecks.Verdicts.{Valid, check_block-Valid}

abbrev with_commitments : List ℕ → Transaction
with_commitments cs = record {
  transaction_hash = 1;
  nullifiers = 0 ∷ [];
  historic_root_block_number_l2 = [];
  commitments = cs;
}

abbrev commitments : Transaction → List ℕ
commitments tx = tx.commitments

abbrev twice : List Transaction
twice = with_commitments (5 ∷ 0 ∷ []) ∷ with_commitments (7 ∷ 5 ∷ []) ∷ []

abbrev once : List Transaction
once = with_commitments (5 ∷ 0 ∷ []) ∷ with_commitments (7 ∷ 0 ∷ []) ∷ []

abbrev places : Duplicate
places = record {
  transaction1_index = 0;
  duplicate1_index = 0;
  transaction2_index = 1;
  duplicate2_index = 1;
}

twice_throws : check_duplicates_within_block commitments twice ≡ throws places
unfolding check_duplicates_within_block
twice_throws = refl

once_passes : check_duplicates_within_block commitments once ≡ ok tt
unfolding check_duplicates_within_block
once_passes = refl

-- Twice in one transaction: the metadata name one position twice.
abbrev one_place : Duplicate
one_place = record {
  transaction1_index = 0;
  duplicate1_index = 0;
  transaction2_index = 0;
  duplicate2_index = 0;
}

one_transaction :
    check_duplicates_within_block commitments (with_commitments (5 ∷ 5 ∷ []) ∷ [])
    ≡ throws one_place
unfolding check_duplicates_within_block
one_transaction = refl

abbrev pub first_block : Block
first_block = record {
  leaf_count = 3;
  n_commitments = 3;
  block_number_l2 = 0;
  root = 33;
  frontier_hash = 1;
}

abbrev pub second_block : Block
second_block = record {
  leaf_count = 5;
  n_commitments = 2;
  block_number_l2 = 1;
  root = 55;
  frontier_hash = 2;
}

abbrev pub block_of : ℕ → Option Block
block_of zero = some first_block
block_of (suc zero) = some second_block
block_of (suc (suc n)) = none

abbrev pub database : Database
database = record {
  block_by_number = block_of;
  root_by_leaf_count = λ n. n + 50;
  frontier_by_number = λ n. 8 ∷ 9 ∷ [];
}

-- Every transaction passes in block 1.
abbrev check_in_one : Transaction → ℕ → Option ℕ
check_in_one tx n = if n == 1 then none else some 1

second_block_passes : check_block length check_in_one database second_block once ≡ ok tt
unfolding check_block
second_block_passes = refl

wrong_root :
    check_block length check_in_one database (record second_block { root = 54 }) once
    ≡ throws root_not_correct
unfolding check_block
wrong_root = refl

check_block-Valid_example : Valid length check_in_one database second_block once
check_block-Valid_example =
    check_block-Valid length check_in_one database second_block once tt second_block_passes

check_duplicates_within_block-Distinct_example : Distinct (values_of commitments once)
check_duplicates_within_block-Distinct_example =
    check_duplicates_within_block-Distinct commitments once once_passes

check_duplicates_within_block-Genuine_example : Genuine commitments twice places
check_duplicates_within_block-Genuine_example =
    check_duplicates_within_block-Genuine commitments twice places twice_throws

second_block-Valid : Valid length check_in_one database second_block once
unfolding block_items
second_block-Valid = record {
  leaves_add_up = (second_block, refl, inr (first_block, refl, refl));
  root_agrees = inr (omega arith, refl);
  frontier_agrees = refl;
  commitments_differ = ((omega arith, tt), (tt, tt));
  nullifiers_differ = tt;
  transactions_pass = (refl, (refl, tt));
}

check_block-accepts_example : check_block length check_in_one database second_block once ≡ ok tt
check_block-accepts_example =
    check_block-accepts length check_in_one database second_block once second_block-Valid
