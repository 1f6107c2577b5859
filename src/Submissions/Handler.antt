-- ===== src/Submissions/Handler.antt =====
-- `transactionSubmittedEventHandler` of
-- nightfall-optimist/src/event-handlers/transaction-submitted.mjs, with the two functions of
-- nightfall-optimist/src/services/database.mjs that it calls. The order of the collection plays no part.
use nightfall.Common.{
  ℕ, Option, none, some, List, [], ◌∷◌, ◌++◌, Bool, true, false, not, ◌&&◌, ◌||◌, ◌==◌,
  if◌then◌else◌, Result, ok, throws,
}
use nightfall.BlockAssembler.Mempool.{Transaction, Pooled, Pool}
use nightfall.BlockChecks.Duplicates.{nonzero}
use nightfall.Rollback.Validate.{any_in}
use nightfall.TransactionChecks.Documents.{World, CheckError, Options}
use nightfall.TransactionChecks.Proofs.{Caches, Verifier}
use nightfall.TransactionChecks.Check.{check_transaction}

-- The query of `deleteDuplicateCommitmentsAndNullifiersFromMemPool`, with no transactions to spare.
unfoldable pub is_duplicate : List ℕ → List ℕ → Pooled → Bool
unfolding any_in
is_duplicate commitments nullifiers d =
    (any_in commitments d.transaction.commitments || any_in nullifiers d.transaction.nullifiers)
    && d.mempool

unfoldable pub delete_duplicates : List ℕ → List ℕ → Pool → Pool
unfolding is_duplicate
delete_duplicates commitments nullifiers [] = []
delete_duplicates commitments nullifiers (d ∷ ds) =
    let rest = delete_duplicates commitments nullifiers ds in
    if is_duplicate commitments nullifiers d then rest else d ∷ rest

-- Whether there is a document with the `_id`, so that `insertOne` throws E11000.
unfoldable pub has_id : ℕ → Pool → Bool
has_id hash [] = false
has_id hash (d ∷ ds) = d.transaction.transaction_hash == hash || has_id hash ds

abbrev pub new_document : Transaction → Pooled
new_document tx = record { transaction = tx; mempool = true; block_number_l2 = none }

-- The error of a document that is there already is caught, and ignored.
unfoldable pub save_transaction : Transaction → Pool → Pool
unfolding has_id
save_transaction tx pool =
    if has_id tx.transaction_hash pool then pool else pool ++ (new_document tx ∷ [])

-- `getCircuitInfo(...).isEscrowRequired` and `getCommitmentEscrowed` of the state contract.
pub record Escrow : Type 0 where
  pub is_escrow_required : ℕ → Bool
  pub is_escrowed : Option ℕ → Bool

-- `transaction.commitments[0]`
abbrev pub first_of : List ℕ → Option ℕ
first_of [] = none
first_of (c ∷ cs) = some c

abbrev pub submitted : Options
submitted = record {
  check_duplicates_in_l2 = true;
  check_duplicates_in_mempool = true;
  transaction_block_number_l2 = none;
  last_valid_block_number_l2 = none;
}

-- After the check: the collection, and the caches.
abbrev pub if_valid : Pool → Transaction → Result CheckError (Unit {0}) × Caches → Pool × Caches
if_valid pool tx (throws e, caches) = (pool, caches)
if_valid pool tx (ok x, caches) = (
  save_transaction tx (delete_duplicates (nonzero tx.commitments) (nonzero tx.nullifiers) pool),
  caches,
)

unfoldable pub transaction_submitted_event_handler :
    Verifier → World → Escrow → Transaction → Caches → Pool × Caches
unfolding check_transaction save_transaction delete_duplicates nonzero
transaction_submitted_event_handler v w escrow tx caches =
    if escrow.is_escrow_required (w.details tx).circuit_hash
      && not (escrow.is_escrowed (first_of tx.commitments))
    then (w.pool, caches)
    else if_valid w.pool tx (check_transaction v w submitted tx caches)
