-- ===== src/BlockAssembler/Examples.antt =====
-- Tests of the model of nightfall-optimist/src/services/block-assembler.mjs on a small mempool, and the
-- theorems about it at that mempool.
use nightfall.Common.{
  ℕ, ◌+◌, ◌≤◌, ◌≡◌, ◌≢◌, refl, ◌⊎◌, inl, inr, some, none, [], ◌∷◌, ◌++◌, concat, true, false, arith,
}
use nightfall.BlockAssembler.Mempool.{
  Transaction, Pooled, Pool, get_mempool_transactions, remove_transactions_from_mempool,
  add_transactions_to_mempool,
}
use nightfall.BlockAssembler.Assembly.{
  Assembler, transaction_size, batch_ends, slices, conditional_make_block,
}
use nightfall.BlockAssembler.Batches.{size_of}
use nightfall.BlockAssembler.Sizes.{Proposable, is_due}
use nightfall.BlockAssembler.Outcome.{
  conditional_make_block-conserves, conditional_make_block-Proposable,
  conditional_make_block-progress,
}

-- 640 bytes each.
abbrev transfer : ℕ → Transaction
transfer hash = record {
  transaction_hash = hash;
  nullifiers = (hash + 50) ∷ [];
  historic_root_block_number_l2 = 1 ∷ 2 ∷ 0 ∷ 0 ∷ [];
  commitments = (hash + 60) ∷ (hash + 70) ∷ [];
}

abbrev waiting : ℕ → Pooled
waiting hash = record { transaction = transfer hash; mempool = true; block_number_l2 = none }

abbrev in_block : ℕ → Pooled
in_block hash = record { transaction = transfer hash; mempool = false; block_number_l2 = some 4 }

abbrev pool : Pool
pool = waiting 1 ∷ waiting 2 ∷ in_block 3 ∷ waiting 4 ∷ []

abbrev assembler : Assembler
assembler = record {
  make_now = true;
  last_block_timestamp = 100;
  block_period_ms = 0;
  transactions = pool;
}

-- The first block is full; the last transaction stays.
two_and_one :
    (conditional_make_block 1300 (λ i. true) true 200 assembler).0
    ≡ (transfer 1 ∷ transfer 2 ∷ []) ∷ []
unfolding conditional_make_block
two_and_one = refl

-- None is full, but one is wanted.
all_in_one :
    (conditional_make_block 50000 (λ i. true) true 200 assembler).0
    ≡ (transfer 1 ∷ transfer 2 ∷ transfer 4 ∷ []) ∷ []
unfolding conditional_make_block
all_in_one = refl

-- A websocket that does not connect.
nothing_sent : (conditional_make_block 1300 (λ i. false) true 200 assembler).0 ≡ []
unfolding conditional_make_block
nothing_sent = refl

-- A transaction that exceeds the size closes an empty block before it.
oversized : slices 0 (batch_ends 600 0 0 (640 ∷ [])) (transfer 1 ∷ []) ≡ [] ∷ []
unfolding slices batch_ends
oversized = refl

pool_of_pool :
    get_mempool_transactions (add_transactions_to_mempool (3 ∷ []) 4 pool)
    ≡ transfer 1 ∷ transfer 2 ∷ transfer 3 ∷ transfer 4 ∷ []
unfolding get_mempool_transactions add_transactions_to_mempool
pool_of_pool = refl

conditional_make_block-conserves_example :
    concat (conditional_make_block 1300 (λ i. true) true 200 assembler).0
      ++ get_mempool_transactions
          (conditional_make_block 1300 (λ i. true) true 200 assembler).1.transactions
    ≡ get_mempool_transactions pool
unfolding get_mempool_transactions remove_transactions_from_mempool
conditional_make_block-conserves_example =
    conditional_make_block-conserves 1300 (λ i. true) true 200 assembler
      (inr refl, (inr refl, (inl refl, (inr refl, tt)))) (refl, (refl, (refl, tt)))

conditional_make_block-Proposable_example :
    Proposable 1300 (conditional_make_block 1300 (λ i. true) true 200 assembler).0
unfolding get_mempool_transactions transaction_size
conditional_make_block-Proposable_example =
    conditional_make_block-Proposable 1300 (λ i. true) true 200 assembler
      (omega arith, (omega arith, (omega arith, tt)))

conditional_make_block-progress_example :
    (size_of (
        get_mempool_transactions
          (conditional_make_block 1300 (λ i. true) true 200 assembler).1.transactions)
      ≤ 1300)
    × ((is_due 200 assembler ≡ false)
        ⊎ (get_mempool_transactions pool ≡ [])
        ⊎ ((conditional_make_block 1300 (λ i. true) true 200 assembler).0 ≢ []))
unfolding get_mempool_transactions transaction_size remove_transactions_from_mempool
conditional_make_block-progress_example =
    conditional_make_block-progress 1300 (λ i. true) 200 assembler (λ n. refl)
      (inr refl, (inr refl, (inl refl, (inr refl, tt)))) (refl, (refl, (refl, tt)))
      (omega arith, (omega arith, (omega arith, tt)))
