-- ===== src/TransactionChecks/Check.antt =====
-- `checkTransaction` of nightfall-optimist/src/services/transaction-checker.mjs. Its first three checks
-- run at once and the first to fail is reported; here they run in the order in which they are written.
use nightfall.Common.{Result, ok, throws, ◌>>◌}
use nightfall.BlockAssembler.Mempool.{Transaction}
use nightfall.TransactionChecks.Documents.{World, commitment, nullifier, CheckError, Options}
use nightfall.TransactionChecks.Duplicates.{check_values}
use nightfall.TransactionChecks.Roots.{check_historic_root_block_number}
use nightfall.TransactionChecks.Proofs.{Caches, Verifier, verify_proof}

unfoldable pub check_duplicates_and_roots :
    World → Options → Transaction → Result CheckError (Unit {0})
unfolding check_values check_historic_root_block_number
check_duplicates_and_roots w options tx = do
  check_values w options commitment tx 0 tx.commitments
  check_values w options nullifier tx 0 tx.nullifiers
  check_historic_root_block_number w options tx

abbrev pub then_verify :
    Verifier
    → World
    → Transaction
    → Caches
    → Result CheckError (Unit {0})
    → Result CheckError (Unit {0}) × Caches
then_verify v w tx caches (throws e) = (throws e, caches)
then_verify v w tx caches (ok x) = verify_proof v w tx caches

unfoldable pub check_transaction :
    Verifier → World → Options → Transaction → Caches → Result CheckError (Unit {0}) × Caches
unfolding check_duplicates_and_roots verify_proof
check_transaction v w options tx caches =
    then_verify v w tx caches (check_duplicates_and_roots w options tx)
