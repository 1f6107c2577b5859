-- ===== src/Rollback/Handler.antt =====
-- `rollbackEventHandler` of nightfall-optimist/src/event-handlers/rollback.mjs on the optimist's
-- collections, with the functions of nightfall-optimist/src/services/database.mjs that it calls.
use nightfall.Common.{
  ℕ, none, some, List, [], ◌∷◌, ◌++◌, map, Bool, false, ◌&&◌, ltb, ◌==◌, if◌then◌else◌,
}
use nightfall.BlockAssembler.Mempool.{Transaction, Pooled, Pool, is_in, add_transactions_to_mempool}
use nightfall.Rollback.Validate.{Outcome, validate, nothing_seen}

-- A document of the blocks collection.
pub record StoredBlock : Type 0 where
  pub block_number_l2 : ℕ
  pub transaction_hashes : List ℕ

-- The collections: the transactions, the blocks in the order in which they are found, and the trees by
-- the numbers of their blocks. No two blocks have the same number.
pub record Collections : Type 0 where
  pub transactions : Pool
  pub blocks : List StoredBlock
  pub trees : List ℕ

-- `deleteMany({ blockNumberL2: { $gte: blockNumberL2 } })`
unfoldable pub delete_tree_by_block_number_l2 : ℕ → List ℕ → List ℕ
delete_tree_by_block_number_l2 number [] = []
delete_tree_by_block_number_l2 number (t ∷ ts) =
    let rest = delete_tree_by_block_number_l2 number ts in if ltb t number then t ∷ rest else rest

unfoldable pub find_blocks_from_block_number_l2 : ℕ → List StoredBlock → List StoredBlock
find_blocks_from_block_number_l2 number [] = []
find_blocks_from_block_number_l2 number (b ∷ bs) =
    let rest = find_blocks_from_block_number_l2 number bs in
    if ltb b.block_number_l2 number then rest else b ∷ rest

-- The query of `getTransactionsByTransactionHashesByL2Block`.
abbrev pub is_at : ℕ → Pooled → Bool
is_at number d = elim d.block_number_l2 [ none ↦ false | some n ↦ n == number ]

unfoldable pub get_transactions_by_hashes : Pool → StoredBlock → List Transaction
unfolding is_in
get_transactions_by_hashes [] b = []
get_transactions_by_hashes (d ∷ ds) b =
    let rest = get_transactions_by_hashes ds b in
    if is_in b.transaction_hashes d.transaction.transaction_hash && is_at b.block_number_l2 d
    then d.transaction ∷ rest
    else rest

unfoldable pub delete_transactions_by_transaction_hashes : List ℕ → Pool → Pool
unfolding is_in
delete_transactions_by_transaction_hashes hashes [] = []
delete_transactions_by_transaction_hashes hashes (d ∷ ds) =
    let rest = delete_transactions_by_transaction_hashes hashes ds in
    if is_in hashes d.transaction.transaction_hash then rest else d ∷ rest

-- `deleteOne({ blockNumberL2 })`
unfoldable pub delete_block : ℕ → List StoredBlock → List StoredBlock
delete_block number [] = []
delete_block number (b ∷ bs) =
    let rest = delete_block number bs in if b.block_number_l2 == number then bs else b ∷ rest

abbrev pub hashes_of : List Transaction → List ℕ
hashes_of = map (λ (tx : Transaction). tx.transaction_hash)

-- What the loop over the blocks finds out, block by block.
pub record Verdict : Type 0 where
  pub block_number : ℕ
  pub outcome : Outcome

-- `sorted` is the sort by position and then that by fee, `check_transaction` whether checkTransaction
-- returns for a transaction of the block with a number.
module _ (sorted : List Transaction → List Transaction)
    (check_transaction : ℕ → Transaction → Bool) where
  unfoldable pub check_blocks : Pool → List StoredBlock → List Verdict
  unfolding get_transactions_by_hashes validate
  check_blocks pool [] = []
  check_blocks pool (b ∷ bs) =
      record {
        block_number = b.block_number_l2;
        outcome =
            validate (check_transaction b.block_number_l2) nothing_seen
              (sorted (get_transactions_by_hashes pool b));
      }
      ∷ check_blocks pool bs

-- `invalidTransactions`
unfoldable pub invalid_transactions : List Verdict → List ℕ
invalid_transactions [] = []
invalid_transactions (v ∷ vs) = hashes_of v.outcome.invalid_transactions ++ invalid_transactions vs

-- A call of the database, of those that the handler makes at its end:
-- `deleteTransactionsByTransactionHashes`, `addTransactionsToMemPool` and `deleteBlock`.
pub data DatabaseCall : Type 0 where
  deletion : List ℕ → DatabaseCall
  return_to_mempool : List ℕ → ℕ → DatabaseCall
  removal : ℕ → DatabaseCall

unfoldable pub take_effect : DatabaseCall → Collections → Collections
unfolding delete_transactions_by_transaction_hashes add_transactions_to_mempool delete_block
take_effect (deletion hashes) db = record db {
  transactions = delete_transactions_by_transaction_hashes hashes db.transactions;
}
take_effect (return_to_mempool hashes number) db = record db {
  transactions = add_transactions_to_mempool hashes number db.transactions;
}
take_effect (removal number) db = record db { blocks = delete_block number db.blocks }

-- The calls take effect in the order of a list.
unfoldable pub all_take_effect : List DatabaseCall → Collections → Collections
unfolding take_effect
all_take_effect [] db = db
all_take_effect (c ∷ cs) db = all_take_effect cs (take_effect c db)

-- For each of the keys of `validTransactionsBlock`.
unfoldable pub block_calls : List Verdict → List DatabaseCall
block_calls [] = []
block_calls (v ∷ vs) =
    return_to_mempool (hashes_of v.outcome.valid_transactions) v.block_number
    ∷ removal v.block_number
    ∷ block_calls vs

-- The collections, of which the handler has awaited the deletion of the trees, and the calls that it
-- starts. It does not wait for those of the blocks, so that they take effect in any order, and later.
unfoldable pub rollback_event_handler :
    (List Transaction → List Transaction)
    → (ℕ → Transaction → Bool)
    → ℕ
    → Collections
    → Collections × List DatabaseCall
unfolding delete_tree_by_block_number_l2 find_blocks_from_block_number_l2 check_blocks
    invalid_transactions block_calls
rollback_event_handler sorted check_transaction number db =
    let verdicts =
      check_blocks sorted check_transaction db.transactions
        (find_blocks_from_block_number_l2 number db.blocks) in
    (
      record db { trees = delete_tree_by_block_number_l2 number db.trees },
      deletion (invalid_transactions verdicts) ∷ block_calls verdicts,
    )
