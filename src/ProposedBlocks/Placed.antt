-- ===== src/ProposedBlocks/Placed.antt =====
-- The collection after the calls that `blockProposedEventHandler` of
-- nightfall-optimist/src/event-handlers/block-proposed.mjs makes for the transactions of a block.
use nightfall.Common.{
  Among, Among-map, ℕ, ◌≡◌, sym, subst, ◌∙◌, inl, inr, List, map, true, false, Bool-cases,
  Among-map_from,
}
use nightfall.BlockAssembler.Mempool.{Transaction, Pooled, Pool, is_in}
use nightfall.BlockAssembler.Members.{is_in-Among, Among-is_in}
use nightfall.BlockAssembler.Removal.{hashes_of}
use nightfall.ProposedBlocks.Handler.{Progress, Call, start, record_transactions}
use nightfall.ProposedBlocks.Keeping.{InBlock, Settled, Recorded}
use nightfall.ProposedBlocks.Unique.{UniqueHashes, UniqueHashes-same}
use nightfall.ProposedBlocks.Recorded.{
  Fair, Underway, perform_all-Underway, all_starting, starting_tx, AllReached-Recorded,
  perform_all-finishes,
}
use nightfall.ProposedBlocks.Clearing.{
  deletes, rivals, out_of_mempool, perform_all-clears, perform_all-UniqueHashes, perform_all-leaves,
}

-- The collection when all calls were made.
pub record Placed (txs : List Transaction) (before after : Pool) : Type 0 where
  pub recorded : (tx : Transaction) → Among tx txs → Recorded tx.transaction_hash after
  pub out_of_mempool :
      (d : Pooled)
      → Among d after
      → is_in (hashes_of txs) d.transaction.transaction_hash ≡ true
      → InBlock d
  pub no_rivals : (d : Pooled) → Among d after → rivals txs d ≡ false
  pub others :
      (d : Pooled)
      → Among d before
      → is_in (hashes_of txs) d.transaction.transaction_hash ≡ false
      → rivals txs d ≡ false
      → Among d after

module _ (n : ℕ) (txs : List Transaction) (cs : List Call) (pool : Pool) where
  abbrev before : Progress
  before = record { pool = pool; tasks = map start txs }

  starting-Underway : Settled pool → Underway n txs (hashes_of txs) before
  starting-Underway settled = record {
    settled = settled;
    reached = all_starting n txs (hashes_of txs) pool txs (λ tx among.
        is_in-Among tx.transaction_hash (hashes_of txs)
          (Among-map (λ (t : Transaction). t.transaction_hash) tx txs among));
    same_txs = starting_tx n txs (hashes_of txs) txs;
  }

  abbrev after : Progress
  after = record_transactions n txs (hashes_of txs) cs pool

  after-Underway : Settled pool → Underway n txs (hashes_of txs) after
  unfolding record_transactions
  after-Underway settled =
      perform_all-Underway n txs (hashes_of txs) cs before (starting-Underway settled)

  -- The documents of the block's transactions are all in a block.
  record_transactions-InBlock :
      Settled pool
      → UniqueHashes pool
      → ((tx : Transaction) → Among tx txs → Recorded tx.transaction_hash after.pool)
      → (d : Pooled) → Among d after.pool
      → is_in (hashes_of txs) d.transaction.transaction_hash ≡ true
      → InBlock d
  unfolding record_transactions
  record_transactions-InBlock settled u recorded d among h =
      let (tx, there, e) =
        Among-map_from (λ (t : Transaction). t.transaction_hash) d.transaction.transaction_hash txs
          (Among-is_in d.transaction.transaction_hash (hashes_of txs) h) in
      let r = recorded tx there in
      subst InBlock
        (UniqueHashes-same after.pool r.document d (perform_all-UniqueHashes n txs cs before u)
          r.among among (r.same_hash ∙ e))
        r.placed

-- For a collection in which no two documents have the same hash and none of the mempool has a block
-- number, and for every order of the calls with the deletion and with at least three calls of the
-- function of each transaction: afterwards every transaction of the block has a document, each of
-- its documents has a block number and is not in the mempool, no document of the mempool has a
-- commitment or a nullifier, other than zero, of the block, and every document from before that
-- had none, and is not of the block, is still there.
pub record_transactions-Placed :
    (n : ℕ) (txs : List Transaction) (cs : List Call) (pool : Pool)
    → UniqueHashes pool
    → Settled pool
    → Fair 0 txs cs
    → deletes cs ≡ true
    → Placed txs pool (record_transactions n txs (hashes_of txs) cs pool).pool
unfolding record_transactions
record_transactions-Placed n txs cs pool u settled fair h =
    let start = starting-Underway n txs cs pool settled in
    let end = after-Underway n txs cs pool settled in
    let recorded = λ (tx : Transaction) (among : Among tx txs).
      AllReached-Recorded (hashes_of txs) (after n txs cs pool).pool (after n txs cs pool).tasks
        (perform_all-finishes n txs (hashes_of txs) cs pool fair) end.reached tx
        (subst (Among tx) (sym end.same_txs) among) in
    let in_blocks = record_transactions-InBlock n txs cs pool settled u recorded in
    record {
      recorded = recorded;
      out_of_mempool = in_blocks;
      no_rivals = λ d among.
          elim (Bool-cases (is_in (hashes_of txs) d.transaction.transaction_hash)) [
            | inl t ↦ out_of_mempool n txs d (in_blocks d among t).not_pooled
            | inr f ↦ perform_all-clears n txs cs (before n txs cs pool) start h d among f
          ];
      others = λ d among f g. perform_all-leaves n txs cs (before n txs cs pool) d start among f g;
    }
