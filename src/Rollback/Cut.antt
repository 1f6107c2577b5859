-- ===== src/Rollback/Cut.antt =====
-- What `rollbackEventHandler` of nightfall-optimist/src/event-handlers/rollback.mjs leaves.
use nightfall.Common.{Among, ℕ, ◌≤◌, ◌<◌, ◌≡◌, ◌≢◌, some, List, ◌∷◌, Bool, false}
use nightfall.BlockAssembler.Mempool.{Transaction, Pooled, is_in}
use nightfall.Rollback.Handler.{
  StoredBlock, Collections, Verdict, invalid_transactions, DatabaseCall, deletion, block_calls,
  all_take_effect,
}
use nightfall.Rollback.Calls.{returned}
use nightfall.Rollback.Judged.{Consistent, verdicts_of, Permutes}

-- What a rollback to a block leaves: nothing of that block and of later ones, everything else, and
-- nothing new. What fails its check is gone; what the loop takes back, and nowhere refuses, is in the
-- mempool.
pub record Cut (sorted : List Transaction → List Transaction)
    (check_transaction : ℕ → Transaction → Bool) (number : ℕ) (db db' : Collections) : Type 0 where
  pub blocks_below : (b : StoredBlock) → Among b db'.blocks → b.block_number_l2 < number
  pub trees_below : (t : ℕ) → Among t db'.trees → t < number
  pub transactions_below :
      (d : Pooled) (n : ℕ) → Among d db'.transactions → d.block_number_l2 ≡ some n → n < number
  pub keeps :
      (d : Pooled)
      → Among d db.transactions
      → ((n : ℕ) → d.block_number_l2 ≡ some n → n < number)
      → Among d db'.transactions
  pub nothing_new :
      (d : Pooled)
      → Among d db'.transactions
      → (x : Pooled) × Among x db.transactions × (x.transaction ≡ d.transaction)
  pub failed_gone :
      (d e : Pooled) (n : ℕ)
      → Among d db.transactions
      → d.block_number_l2 ≡ some n
      → number ≤ n
      → check_transaction n d.transaction ≡ false
      → Among e db'.transactions
      → e.transaction.transaction_hash ≢ d.transaction.transaction_hash
  pub valid_returned :
      (d : Pooled) (v : Verdict)
      → Among d db.transactions
      → d.block_number_l2 ≡ some v.block_number
      → Among v (verdicts_of sorted check_transaction number db)
      → Among d.transaction v.outcome.valid_transactions
      → is_in
          (invalid_transactions (verdicts_of sorted check_transaction number db))
          d.transaction.transaction_hash
        ≡ false
      → Among (returned d) db'.transactions

-- The calls, in any order.
pub record InAnyOrder (planned calls : List DatabaseCall) : Type 0 where
  pub every : (c : DatabaseCall) → Among c planned → Among c calls
  pub only : (c : DatabaseCall) → Among c calls → Among c planned

module _ (sorted : List Transaction → List Transaction) (check_transaction : ℕ → Transaction → Bool)
    (permutes : Permutes sorted) (number : ℕ) (db : Collections) (consistent : Consistent db) where
  abbrev verdicts : List Verdict
  verdicts = verdicts_of sorted check_transaction number db

  abbrev invalid : List ℕ
  invalid = invalid_transactions verdicts

  module _ (calls : List DatabaseCall)
      (order : InAnyOrder (deletion invalid ∷ block_calls verdicts) calls) (from : Collections)
      (same_transactions : from.transactions ≡ db.transactions)
      (same_blocks : from.blocks ≡ db.blocks) where
    abbrev after : Collections
    after = all_take_effect calls from
