-- ===== src/TransactionChecks/Duplicates.antt =====
-- `checkDuplicateCommitment` and `checkDuplicateNullifier` of
-- nightfall-optimist/src/services/transaction-checker.mjs, which differ in the field that they read.
use nightfall.Common.{
  ℕ, suc, Option, none, some, List, [], ◌∷◌, ◌==◌, if◌then◌else◌, Result, ok, throws, ◌>>◌,
}
use nightfall.BlockAssembler.Mempool.{Transaction, Pooled}
use nightfall.BlockChecks.Check.{Block}
use nightfall.TransactionChecks.Documents.{
  World, Kind, CheckError, duplicate_in_mempool, duplicate_in_l2, get_mempool_transaction,
  get_transaction_l2, stored_block, Options,
}

-- A transaction of the mempool with a higher fee that has the value.
abbrev pub refuse_pooled : Kind → ℕ → Option Pooled → Result CheckError (Unit {0})
refuse_pooled kind value none = ok tt
refuse_pooled kind value (some d) = throws (duplicate_in_mempool kind value)

-- A transaction in a block that has it, if the block is there.
abbrev pub refuse_stored : Kind → ℕ → Transaction → Option Block → Result CheckError (Unit {0})
refuse_stored kind index tx none = ok tt
refuse_stored kind index tx (some b) = throws (duplicate_in_l2 kind index tx b)

abbrev pub refuse_in_l2 : World → Kind → ℕ → Option Pooled → Result CheckError (Unit {0})
refuse_in_l2 w kind index none = ok tt
refuse_in_l2 w kind index (some d) =
    refuse_stored kind index d.transaction (stored_block w d.block_number_l2)

unfoldable pub check_in_mempool :
    World → Options → Kind → Transaction → ℕ → Result CheckError (Unit {0})
unfolding get_mempool_transaction
check_in_mempool w options kind tx value =
    if options.check_duplicates_in_mempool
    then refuse_pooled kind value (get_mempool_transaction w kind value (w.details tx).fee)
    else ok tt

unfoldable pub check_in_l2 : World → Options → Kind → ℕ → ℕ → Result CheckError (Unit {0})
unfolding get_transaction_l2
check_in_l2 w options kind index value =
    if options.check_duplicates_in_l2
    then refuse_in_l2 w kind index
        (get_transaction_l2 w kind value options.transaction_block_number_l2)
    else ok tt

unfoldable pub check_value :
    World → Options → Kind → Transaction → ℕ → ℕ → Result CheckError (Unit {0})
unfolding check_in_mempool check_in_l2
check_value w options kind tx index value =
    if value == 0
    then ok tt
    else check_in_mempool w options kind tx value >> check_in_l2 w options kind index value

-- The loop, from an index on.
unfoldable pub check_values :
    World → Options → Kind → Transaction → ℕ → List ℕ → Result CheckError (Unit {0})
unfolding check_value
check_values w options kind tx index [] = ok tt
check_values w options kind tx index (v ∷ vs) =
    check_value w options kind tx index v >> check_values w options kind tx (suc index) vs
