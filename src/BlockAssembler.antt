-- ===== src/BlockAssembler.antt =====
-- nightfall-optimist/src/services/block-assembler.mjs, and the queries of the mempool it makes, in
-- nightfall-optimist/src/services/database.mjs.
pub mod Mempool
pub mod Members
pub mod Assembly
pub mod Batches
pub mod Sizes
pub mod Removal
pub mod Proposals
pub mod Outcome
pub mod Examples
