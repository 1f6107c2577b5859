-- ===== src/Submissions.antt =====
-- nightfall-optimist/src/event-handlers/transaction-submitted.mjs, a new transaction.
pub mod Handler
pub mod Values
pub mod Mempool
pub mod Examples
