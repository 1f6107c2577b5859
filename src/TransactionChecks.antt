-- ===== src/TransactionChecks.antt =====
-- nightfall-optimist/src/services/transaction-checker.mjs, the checks of a transaction.
pub mod Documents
pub mod Duplicates
pub mod Roots
pub mod Proofs
pub mod Check
pub mod Free
pub mod Caching
pub mod Verdicts
pub mod Spending
pub mod Examples
