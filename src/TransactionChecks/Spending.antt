-- ===== src/TransactionChecks/Spending.antt =====
-- `checkBlock` of nightfall-optimist/src/services/check-block.mjs with `checkTransaction` of
-- nightfall-optimist/src/services/transaction-checker.mjs: nothing is spent twice on the chain.
use nightfall.Common.{
  Among, ℕ, ◌≡◌, ◌≢◌, refl, subst, inl, inr, Option, none, some, List, [], ◌∷◌, true, false, Result,
  ok, throws,
}
use nightfall.BlockAssembler.Mempool.{Transaction, Pooled}
use nightfall.BlockChecks.Check.{Block, Database, check_block}
use nightfall.BlockChecks.Distinct.{Distinct}
use nightfall.BlockChecks.Accepted.{values_of}
use nightfall.BlockChecks.Verdicts.{Valid, AllPass, check_block-Valid}
use nightfall.TransactionChecks.Documents.{
  World, Kind, commitment, nullifier, values, CheckError, error_code, Options,
}
use nightfall.TransactionChecks.Proofs.{Caches, Verifier}
use nightfall.TransactionChecks.Check.{check_transaction}
use nightfall.TransactionChecks.Free.{BlocksStored, Free}
use nightfall.TransactionChecks.Caching.{Coherent}
use nightfall.TransactionChecks.Verdicts.{Accepted, check_transaction-Accepted}

-- The arguments with which `checkBlock` calls `checkTransaction`.
abbrev pub block_options : ℕ → Options
block_options number = record {
  check_duplicates_in_l2 = true;
  check_duplicates_in_mempool = false;
  transaction_block_number_l2 = some number;
  last_valid_block_number_l2 = none;
}

-- The code that the `catch` of `checkBlock` reads; `no_code` stands for undefined.
abbrev pub code_or : ℕ → Option ℕ → Option ℕ
code_or no_code none = some no_code
code_or no_code (some c) = some c

abbrev pub caught : ℕ → Result CheckError (Unit {0}) → Option ℕ
caught no_code (ok x) = none
caught no_code (throws e) = code_or no_code (error_code e)

-- The call, with the caches as they are when it is made.
unfoldable pub check_in_block :
    Verifier → World → (Transaction → Caches) → ℕ → Transaction → ℕ → Option ℕ
unfolding check_transaction
check_in_block v w caches no_code tx number =
    caught no_code (check_transaction v w (block_options number) tx (caches tx)).0

caught-none : (no_code : ℕ) (r : Result CheckError (Unit {0})) → caught no_code r ≡ none → r ≡ ok tt
caught-none no_code (ok x) h = refl
caught-none no_code (throws e) h = absurd (is_some (error_code e) h)
  where
    is_some : (c : Option ℕ) → code_or no_code c ≢ none
    is_some none g = absurd (cc g)
    is_some (some c) g = absurd (cc g)

-- Of one of the fields: no value other than zero stands twice in the block, and none stands in a
-- transaction of another block.
abbrev pub SpendsOnce : World → Block → List Transaction → Kind → Type 0
SpendsOnce w block txs kind =
    Distinct (values_of (values kind) txs)
    × ((tx : Transaction) (value : ℕ) (d : Pooled) (n : ℕ)
        → Among tx txs
        → Among value (values kind tx)
        → value ≢ 0
        → Among d w.pool
        → d.block_number_l2 ≡ some n
        → block.block_number_l2 ≢ n
        → Among value (values kind d.transaction)
        → ⊥)

module _ (calc_frontier_hash : List ℕ → ℕ) (v : Verifier) (w : World)
    (caches : Transaction → Caches) (no_code : ℕ) where
  passes_alone :
      (txs : List Transaction) (number : ℕ) (tx : Transaction)
      → AllPass calc_frontier_hash (check_in_block v w caches no_code) txs number
      → Among tx txs
      → check_in_block v w caches no_code tx number ≡ none
  passes_alone [] number tx all among = absurd among
  passes_alone (x ∷ xs) number tx (p, all) (inl e) =
      subst (λ y. check_in_block v w caches no_code y number ≡ none) e p
  passes_alone (x ∷ xs) number tx (p, all) (inr later) = passes_alone xs number tx all later

  differ :
      (db : Database) (block : Block) (txs : List Transaction) (kind : Kind)
      → Valid calc_frontier_hash (check_in_block v w caches no_code) db block txs
      → Distinct (values_of (values kind) txs)
  differ db block txs commitment valid = valid.commitments_differ
  differ db block txs nullifier valid = valid.nullifiers_differ

  -- If every block with a transaction of the collection is stored, and the caches hold what the
  -- contracts say, then in a block for which `checkBlock` returns, with `checkTransaction` as its check,
  -- no commitment and no nullifier other than zero stands twice, and none stands in a transaction
  -- of another block.
  pub check_block-SpendsOnce :
      (db : Database) (block : Block) (txs : List Transaction)
      → BlocksStored w
      → ((tx : Transaction) → Coherent w (caches tx))
      → check_block calc_frontier_hash (check_in_block v w caches no_code) db block txs ≡ ok tt
      → (kind : Kind) → SpendsOnce w block txs kind
  check_block-SpendsOnce db block txs stored coherent h kind =
      let valid =
        check_block-Valid calc_frontier_hash (check_in_block v w caches no_code) db block txs tt
          h in
      (
        differ db block txs kind valid,
        λ tx value d n among holds ne pooled is_n other again.
            (free_of valid tx among kind value holds ne).in_l2 refl d n pooled is_n
              (λ e. other (some-eq e)) again,
      )
    where
      some-eq : {a b : ℕ} → some a ≡ some b → a ≡ b
      some-eq e = cc

      accepted :
          Valid calc_frontier_hash (check_in_block v w caches no_code) db block txs
          → (tx : Transaction) → Among tx txs
          → Accepted v w tx (block_options block.block_number_l2)
      accepted valid tx among =
          check_transaction-Accepted v w (block_options block.block_number_l2) tx (caches tx) stored
            (coherent tx)
            (caught-none no_code _ (
              unfold check_in_block in
              passes_alone txs block.block_number_l2 tx valid.transactions_pass among))

      free_of :
          Valid calc_frontier_hash (check_in_block v w caches no_code) db block txs
          → (tx : Transaction) → Among tx txs
          → (kind : Kind) (value : ℕ) → Among value (values kind tx)
          → value ≢ 0
          → Free w (block_options block.block_number_l2) kind tx value
      free_of valid tx among = (accepted valid tx among).free
