-- ===== src/BlockAssembler/Outcome.antt =====
-- What `conditionalMakeBlock` of nightfall-optimist/src/services/block-assembler.mjs sends and what it
-- leaves in the mempool.
use nightfall.Common.{
  ℕ, suc, ◌≤◌, ◌≡◌, ◌≢◌, refl, sym, ◌∙◌, subst, ◌⊎◌, inl, inr, List, [], ◌∷◌, ◌++◌, length, concat,
  Bool, true, false, leb, ◌&&◌, if◌then◌else◌, arith, Bool-cases,
}
use nightfall.BlockAssembler.Mempool.{Transaction, get_mempool_transactions}
use nightfall.BlockAssembler.Assembly.{
  Assembler, transaction_batches, slices, propose, conditional_make_block,
}
use nightfall.BlockAssembler.Batches.{size_of}
use nightfall.BlockAssembler.Sizes.{
  EachFits, Proposable, blocks_of, is_due, blocks_of-Split, blocks_of-due, blocks_of_complete,
  filled-cases,
}
use nightfall.BlockAssembler.Removal.{Waiting, DistinctHashes}
use nightfall.BlockAssembler.Proposals.{Ahead, propose-conserves, propose-all, propose-Proposable}

module _ (limit : ℕ) (connects : ℕ → Bool) (is_me : Bool) (current_time : ℕ) (st : Assembler) where
  abbrev waiting_transactions : List Transaction
  waiting_transactions = get_mempool_transactions st.transactions

  abbrev outcome : List (List Transaction) × Assembler
  outcome = conditional_make_block limit connects is_me current_time st

  -- If what is in the mempool is in no block and no two of its transactions have the same hash,
  -- then, whatever the websocket does, the transactions sent in blocks, followed by those left in
  -- the mempool, are the transactions of the mempool before, in their order.
  pub conditional_make_block-conserves :
      Waiting st.transactions
      → DistinctHashes (get_mempool_transactions st.transactions)
      → concat (conditional_make_block limit connects is_me current_time st).0
          ++ get_mempool_transactions
              (conditional_make_block limit connects is_me current_time st).1.transactions
        ≡ get_mempool_transactions st.transactions
  unfolding conditional_make_block
  conditional_make_block-conserves waiting distinct =
      elim (Bool-cases (
        is_me && leb 1 (length (transaction_batches limit current_time st waiting_transactions)))) [
          | inl t ↦
              let (rest, complete) =
                blocks_of_complete limit current_time st waiting_transactions in
              rw t (
                propose-conserves connects 0 (blocks_of limit current_time st waiting_transactions)
                  rest (record st { last_block_timestamp = current_time })
                  (record {
                    waiting = waiting;
                    same = sym complete;
                    distinct = subst DistinctHashes (sym complete) distinct;
                  })
                ∙ complete)
          | inr f ↦ rw f refl
        ]

  -- If every transaction of the mempool fits into a block of its own, every block that is sent has a
  -- transaction and is at most of the maximum size.
  pub conditional_make_block-Proposable :
      EachFits limit (get_mempool_transactions st.transactions)
      → Proposable limit (conditional_make_block limit connects is_me current_time st).0
  unfolding conditional_make_block
  conditional_make_block-Proposable fits =
      elim (Bool-cases (
        is_me && leb 1 (length (transaction_batches limit current_time st waiting_transactions)))) [
          | inl t ↦ rw t (
              propose-Proposable limit connects 0
                (blocks_of limit current_time st waiting_transactions)
                (record st { last_block_timestamp = current_time })
                (blocks_of-Split limit current_time st waiting_transactions fits).proposable)
          | inr f ↦ rw f tt
        ]

-- The tests before the loop only decide whether there is a block.
sends :
    (limit : ℕ) (connects : ℕ → Bool) (current_time : ℕ) (st : Assembler) (batches : List ℕ)
    (rest : List Transaction)
    → ((n : ℕ) → connects n ≡ true)
    → Ahead (slices 0 batches (get_mempool_transactions st.transactions)) rest st
    → let txs = get_mempool_transactions st.transactions in
      let done =
        if leb 1 (length batches)
        then propose connects 0
            (slices 0 batches txs)
            (record st { last_block_timestamp = current_time })
        else ([], st) in
      (done.0 ≡ slices 0 batches txs) × (get_mempool_transactions done.1.transactions ≡ rest)
sends limit connects current_time st [] rest always a = unfold slices in (refl, a.same)
sends limit connects current_time st (e ∷ batches) rest always a =
    rw (some_batches (length batches)) (
      propose-all connects 0 _ rest (record st { last_block_timestamp = current_time }) always
        (record { waiting = a.waiting; same = a.same; distinct = a.distinct }))
  where
    some_batches : (n : ℕ) → leb 1 (suc n) ≡ true
    some_batches n = ground arith

-- If what is in the mempool is in no block, no two of its transactions have the same hash and each
-- fits into a block, then the current proposer, with a websocket that always connects, leaves at
-- most the size of one block in the mempool, and sends a block if one is due and there is a
-- transaction.
pub conditional_make_block-progress :
    (limit : ℕ) (connects : ℕ → Bool) (current_time : ℕ) (st : Assembler)
    → ((n : ℕ) → connects n ≡ true)
    → Waiting st.transactions
    → DistinctHashes (get_mempool_transactions st.transactions)
    → EachFits limit (get_mempool_transactions st.transactions)
    → let done = conditional_make_block limit connects true current_time st in
      (size_of (get_mempool_transactions done.1.transactions) ≤ limit)
      × ((is_due current_time st ≡ false)
          ⊎ (get_mempool_transactions st.transactions ≡ [])
          ⊎ (done.0 ≢ []))
unfolding conditional_make_block
conditional_make_block-progress limit connects current_time st always waiting distinct fits =
    let txs = get_mempool_transactions st.transactions in
    let split = blocks_of-Split limit current_time st txs fits in
    let (sent, left_over) =
      sends limit connects current_time st (transaction_batches limit current_time st txs)
        split.rest always
        (record {
          waiting = waiting;
          same = sym split.complete;
          distinct = subst DistinctHashes (sym split.complete) distinct;
        }) in
    (
      rw left_over split.small,
      elim (Bool-cases (is_due current_time st)) [
        | inr f ↦ inl f
        | inl t ↦ elim (filled-cases txs) [
          | inl e ↦ inr (inl e)
          | inr filled ↦
              inr (inr (λ h. blocks_of-due limit current_time st txs filled t (sym sent ∙ h)))
        ]
      ],
    )
