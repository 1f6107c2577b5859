-- ===== src/ProposedBlocks/Examples.antt =====
-- Tests of the model of nightfall-optimist/src/event-handlers/block-proposed.mjs on a block of a
-- transaction of the mempool and a new one, and the theorem about them.
use nightfall.Common.{arith, ◌≡◌, refl, sym, ap, ◌∙◌, inl, inr, List, [], ◌∷◌}
use nightfall.BlockAssembler.Mempool.{Transaction, Pooled, Pool}
use nightfall.BlockAssembler.Removal.{hashes_of}
use nightfall.Submissions.Handler.{new_document, has_id}
use nightfall.TransactionChecks.Examples.{tx_of, in_block_zero}
use nightfall.ProposedBlocks.Handler.{Call, call_of, deletion, in_block, record_transactions}
use nightfall.ProposedBlocks.Keeping.{Settled}
use nightfall.ProposedBlocks.Recorded.{Fair}
use nightfall.ProposedBlocks.Placed.{Placed, record_transactions-Placed}

abbrev known : Transaction
known = tx_of 2 (4 ∷ 0 ∷ []) (7 ∷ 0 ∷ [])

abbrev unknown : Transaction
unknown = tx_of 3 (5 ∷ 0 ∷ []) (9 ∷ 0 ∷ [])

-- It shares a nullifier with the new transaction.
abbrev rival : Pooled
rival = new_document (tx_of 6 (5 ∷ 0 ∷ []) (8 ∷ 0 ∷ []))

abbrev harmless : Pooled
harmless = new_document (tx_of 8 (3 ∷ 0 ∷ []) (12 ∷ 0 ∷ []))

abbrev collection : Pool
collection = in_block_zero ∷ new_document known ∷ rival ∷ harmless ∷ []

abbrev proposed : List Transaction
proposed = known ∷ unknown ∷ []

-- The deletion comes before the update.
abbrev schedule : List Call
schedule = call_of 0 ∷ call_of 1 ∷ deletion ∷ call_of 1 ∷ call_of 0 ∷ call_of 1 ∷ call_of 0 ∷ []

abbrev recorded_pool : Pool
recorded_pool = in_block_zero ∷ in_block 1 known ∷ harmless ∷ in_block 1 unknown ∷ []

record_transactions_test :
    (record_transactions 1 proposed (hashes_of proposed) schedule collection).pool ≡ recorded_pool
unfolding record_transactions
record_transactions_test = refl

-- The collection is the same when the deletion comes first.
deletion_first_test :
    (record_transactions 1 proposed (hashes_of proposed) (deletion ∷ schedule) collection).pool
    ≡ recorded_pool
unfolding record_transactions
deletion_first_test = refl

collection-Settled : Settled collection
collection-Settled d n (inl e) h = sym (ap (λ (x : Pooled). x.mempool) e)
collection-Settled d n (inr (inl e)) h = absurd (cc (ap (λ (x : Pooled). x.block_number_l2) e ∙ h))
collection-Settled d n (inr (inr (inl e))) h =
    absurd (cc (ap (λ (x : Pooled). x.block_number_l2) e ∙ h))
collection-Settled d n (inr (inr (inr (inl e)))) h =
    absurd (cc (ap (λ (x : Pooled). x.block_number_l2) e ∙ h))
collection-Settled d n (inr (inr (inr (inr nowhere)))) h = absurd nowhere

schedule-Fair : Fair 0 proposed schedule
schedule-Fair = (omega arith, (omega arith, tt))

record_transactions-Placed_example :
    Placed proposed collection
      (record_transactions 1 proposed (hashes_of proposed) schedule collection).pool
unfolding has_id
record_transactions-Placed_example =
    record_transactions-Placed 1 proposed schedule collection (refl, (refl, (refl, (refl, tt))))
      collection-Settled schedule-Fair refl
