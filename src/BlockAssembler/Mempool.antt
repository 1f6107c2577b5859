-- ===== src/BlockAssembler/Mempool.antt =====
-- The transactions collection, as far as the mempool goes: `removeTransactionsFromMemPool`,
-- `addTransactionsToMemPool` and `getMempoolTransactionsSortedByFee` of
-- nightfall-optimist/src/services/database.mjs.
use nightfall.Common.{
  ℕ, Option, none, some, List, [], ◌∷◌, map, Bool, true, false, ◌&&◌, ◌||◌, ◌==◌, if◌then◌else◌,
}

-- A transaction of common-files/classes/transaction.mjs, by the fields that take space in a block.
pub record Transaction : Type 0 where
  pub transaction_hash : ℕ
  pub nullifiers : List ℕ
  pub historic_root_block_number_l2 : List ℕ
  pub commitments : List ℕ

-- A document of the collection; `none` in `block_number_l2` is -1.
pub record Pooled : Type 0 where
  pub transaction : Transaction
  pub mempool : Bool
  pub block_number_l2 : Option ℕ

abbrev pub Pool : Type 0
Pool = List Pooled

-- `{ $in: hashes }`
unfoldable pub is_in : List ℕ → ℕ → Bool
is_in [] hash = false
is_in (h ∷ hs) hash = h == hash || is_in hs hash

-- The default of `removeTransactionsFromMemPool`, with no block number.
abbrev pub leave : List ℕ → Pooled → Pooled
leave hashes d =
    let unset : Bool = elim d.block_number_l2 [ none ↦ true | some n ↦ false ] in
    if is_in hashes d.transaction.transaction_hash && unset then record d { mempool = false } else d

unfoldable pub remove_transactions_from_mempool : List ℕ → Pool → Pool
unfolding is_in
remove_transactions_from_mempool hashes pool = map (leave hashes) pool

abbrev pub return_to : List ℕ → ℕ → Pooled → Pooled
return_to hashes block_number_l2 d =
    let same : Bool = elim d.block_number_l2 [ none ↦ false | some n ↦ n == block_number_l2 ] in
    if is_in hashes d.transaction.transaction_hash && same
    then record d { mempool = true; block_number_l2 = none }
    else d

unfoldable pub add_transactions_to_mempool : List ℕ → ℕ → Pool → Pool
unfolding is_in
add_transactions_to_mempool hashes block_number_l2 pool =
    map (return_to hashes block_number_l2) pool

-- The query for the mempool. The list of the documents is in the order in which `sort({ fee: -1 })` gives
-- them, which no update changes.
unfoldable pub get_mempool_transactions : Pool → List Transaction
get_mempool_transactions [] = []
get_mempool_transactions (d ∷ ds) =
    let rest = get_mempool_transactions ds in if d.mempool then d.transaction ∷ rest else rest
