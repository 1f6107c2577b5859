-- ===== src/ProposedBlocks.antt =====
-- nightfall-optimist/src/event-handlers/block-proposed.mjs, the transactions of a new block.
pub mod Handler
pub mod Keeping
pub mod Reading
pub mod Others
pub mod Unique
pub mod Calls
pub mod Recorded
pub mod Clearing
pub mod Placed
pub mod Examples
