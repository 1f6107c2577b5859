-- ===== src/ProposedBlocks/Handler.antt =====
-- The transactions of a block in `blockProposedEventHandler` of
-- nightfall-optimist/src/event-handlers/block-proposed.mjs, with the functions of
-- nightfall-optimist/src/services/database.mjs that it calls. The functions that
-- `transactions.map(async ...)` starts are not awaited: a schedule says in which order the calls of
-- the database, theirs and the deletion's, take place.
use nightfall.Common.{
  ℕ, zero, suc, Option, none, some, List, [], ◌∷◌, ◌++◌, map, false, not, ◌&&◌, ◌==◌, if◌then◌else◌,
}
use nightfall.BlockAssembler.Mempool.{Transaction, Pooled, Pool, is_in}
use nightfall.BlockChecks.Duplicates.{nonzero}
use nightfall.Submissions.Handler.{is_duplicate, has_id}

-- Where the function of a transaction has got to: before `saveTransaction`, before
-- `getTransactionByTransactionHash`, before `updateTransaction`, returned, or rejected.
pub data Stage : Type 0 where
  saving reading updating returned rejected : Stage

unfoldable pub get_transaction_by_transaction_hash : ℕ → Pool → Option Pooled
get_transaction_by_transaction_hash hash [] = none
get_transaction_by_transaction_hash hash (d ∷ ds) =
    let rest = get_transaction_by_transaction_hash hash ds in
    if d.transaction.transaction_hash == hash then some d else rest

-- `updateOne`, with the block's number and `mempool: false`.
unfoldable pub update_transaction : ℕ → ℕ → Pool → Pool
update_transaction hash n [] = []
update_transaction hash n (d ∷ ds) =
    let rest = update_transaction hash n ds in
    if d.transaction.transaction_hash == hash
    then record d { mempool = false; block_number_l2 = some n } ∷ ds
    else d ∷ rest

abbrev pub in_block : ℕ → Transaction → Pooled
in_block n tx = record { transaction = tx; mempool = false; block_number_l2 = some n }

-- Only a number that is -1 is updated.
abbrev pub if_unset : Option ℕ → Stage
if_unset none = updating
if_unset (some n) = returned

-- What is done with the stored transaction: nothing stored is a property of `null`, which throws.
abbrev pub after_read : Option Pooled → Stage
after_read none = rejected
after_read (some d) = if_unset d.block_number_l2

-- The next call of the function of a transaction.
unfoldable pub advance : ℕ → Transaction → Stage → Pool → Stage × Pool
unfolding has_id get_transaction_by_transaction_hash update_transaction
advance n tx saving pool =
    if has_id tx.transaction_hash pool
    then (reading, pool)
    else (returned, pool ++ (in_block n tx ∷ []))
advance n tx reading pool =
    (after_read (get_transaction_by_transaction_hash tx.transaction_hash pool), pool)
advance n tx updating pool = (returned, update_transaction tx.transaction_hash n pool)
advance n tx returned pool = (returned, pool)
advance n tx rejected pool = (rejected, pool)

-- `deleteDuplicateCommitmentsAndNullifiersFromMemPool`, with the hashes to spare.
unfoldable pub delete_duplicates_but : List ℕ → List ℕ → List ℕ → Pool → Pool
unfolding is_duplicate is_in
delete_duplicates_but commitments nullifiers spared [] = []
delete_duplicates_but commitments nullifiers spared (d ∷ ds) =
    let rest = delete_duplicates_but commitments nullifiers spared ds in
    if is_duplicate commitments nullifiers d && not (is_in spared d.transaction.transaction_hash)
    then rest
    else d ∷ rest

-- A transaction of the block, and where its function has got to.
pub record Task : Type 0 where
  pub tx : Transaction
  pub stage : Stage

-- The collection, and the functions that were started.
pub record Progress : Type 0 where
  pub pool : Pool
  pub tasks : List Task

-- The call that comes next: of the function at an index, or the deletion.
pub data Call : Type 0 where
  call_of : ℕ → Call
  deletion : Call

-- `.map(t => ….filter(c => c !== ZERO)).flat(Infinity)`
unfoldable pub nonzero_of : (Transaction → List ℕ) → List Transaction → List ℕ
unfolding nonzero
nonzero_of field [] = []
nonzero_of field (tx ∷ txs) = nonzero (field tx) ++ nonzero_of field txs

abbrev pub start : Transaction → Task
start tx = record { tx = tx; stage = saving }

-- An index out of range calls nothing.
unfoldable pub advance_at : ℕ → ℕ → Pool → List Task → Pool × List Task
unfolding advance
advance_at n i pool [] = (pool, [])
advance_at n zero pool (t ∷ ts) =
    let next = advance n t.tx t.stage pool in (next.1, record t { stage = next.0 } ∷ ts)
advance_at n (suc i) pool (t ∷ ts) = let rest = advance_at n i pool ts in (rest.0, t ∷ rest.1)

module _ (n : ℕ) (txs : List Transaction) (transaction_hashes : List ℕ) where
  unfoldable pub perform : Call → Progress → Progress
  unfolding advance_at delete_duplicates_but nonzero_of
  perform (call_of i) s =
      let next = advance_at n i s.pool s.tasks in record { pool = next.0; tasks = next.1 }
  perform deletion s = record s {
    pool =
        delete_duplicates_but (nonzero_of (λ t. t.commitments) txs)
          (nonzero_of (λ t. t.nullifiers) txs) transaction_hashes s.pool;
  }

  unfoldable pub perform_all : List Call → Progress → Progress
  unfolding perform
  perform_all [] s = s
  perform_all (c ∷ cs) s = perform_all cs (perform c s)

  -- The calls of the handler on the collection, in the order of the schedule.
  unfoldable pub record_transactions : List Call → Pool → Progress
  unfolding perform_all
  record_transactions calls pool = perform_all calls (record { pool = pool; tasks = map start txs })
