-- ===== src/BlockAssembler/Assembly.antt =====
-- `conditionalMakeBlock` of nightfall-optimist/src/services/block-assembler.mjs.
use nightfall.Common.{
  ℕ, suc, ◌+◌, ◌-◌, ◌*◌, ◌/◌, List, [], ◌∷◌, map, length, take, drop, Bool, false, ◌&&◌, ◌||◌, ltb,
  leb, ◌==◌, if◌then◌else◌,
}
use nightfall.BlockAssembler.Mempool.{
  Transaction, Pool, get_mempool_transactions, remove_transactions_from_mempool,
}

-- The variables of the module. A block is made from its transactions, in their order, and is named by
-- them here.
pub record Assembler : Type 0 where
  pub make_now : Bool
  pub last_block_timestamp : ℕ
  pub block_period_ms : ℕ
  pub transactions : Pool

-- MINIMUM_TRANSACTION_SLOTS of config/default.js
abbrev minimum_transaction_slots : ℕ
minimum_transaction_slots = 16

-- The bytes of a transaction; `(n + 3) / 4` is `Math.ceil(n / 4)`.
unfoldable pub transaction_size : Transaction → ℕ
transaction_size tx =
    (minimum_transaction_slots
      + length tx.nullifiers
      + (length tx.historic_root_block_number_l2 + 3) / 4
      + length tx.commitments)
    * 32

-- `reduce((acc, curr) => acc + curr, 0)`
abbrev pub sum : List ℕ → ℕ
sum [] = 0
sum (n ∷ ns) = n + sum ns

-- The loop that collects where blocks end: `i` is the position, `bytes_sum` the size of the block that
-- is open.
unfoldable pub batch_ends : ℕ → ℕ → ℕ → List ℕ → List ℕ
batch_ends max_block_size i bytes_sum [] = []
batch_ends max_block_size i bytes_sum (size ∷ sizes) =
    let closed = batch_ends max_block_size (suc i) size sizes in
    let still_open = batch_ends max_block_size (suc i) (bytes_sum + size) sizes in
    if ltb max_block_size (bytes_sum + size) then i ∷ closed else still_open

-- `slice(start, end)` between each end and the one before.
unfoldable pub slices : ℕ → List ℕ → List Transaction → List (List Transaction)
slices start [] txs = []
slices start (end ∷ ends) txs = take (end - start) (drop start txs) ∷ slices end ends txs

-- `transactionBatches`
unfoldable pub transaction_batches : ℕ → ℕ → Assembler → List Transaction → List ℕ
unfolding transaction_size batch_ends
transaction_batches max_block_size current_time st txs =
    let sizes = map transaction_size txs in
    let ends = batch_ends max_block_size 0 0 sizes in
    let due =
      st.make_now
      || (ltb 0 st.block_period_ms
          && leb st.block_period_ms (current_time - st.last_block_timestamp)) in
    if ltb 0 (sum sizes) then (if length ends == 0 && due then length sizes ∷ [] else ends) else []

-- The loop that proposes the blocks. `connects i` says whether the websocket is open, or opens within
-- the tries, for the block `i`; if not the function returns. The first result is what is sent.
unfoldable pub propose :
    (ℕ → Bool) → ℕ → List (List Transaction) → Assembler → List (List Transaction) × Assembler
unfolding remove_transactions_from_mempool
propose connects i [] st = ([], st)
propose connects i (block ∷ blocks) st =
    let hashes = map (λ (tx : Transaction). tx.transaction_hash) block in
    let sent = propose connects (suc i) blocks (record st {
      make_now = false;
      transactions = remove_transactions_from_mempool hashes st.transactions;
    }) in
    if connects i then (block ∷ sent.0, sent.1) else ([], record st { make_now = false })

unfoldable pub conditional_make_block :
    ℕ → (ℕ → Bool) → Bool → ℕ → Assembler → List (List Transaction) × Assembler
unfolding get_mempool_transactions transaction_batches slices propose
conditional_make_block max_block_size connects is_me current_time st =
    let txs = get_mempool_transactions st.transactions in
    let batches = transaction_batches max_block_size current_time st txs in
    let proposed =
      propose connects 0 (slices 0 batches txs)
        (record st { last_block_timestamp = current_time }) in
    if is_me && leb 1 (length batches) then proposed else ([], st)
