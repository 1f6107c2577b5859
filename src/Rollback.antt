-- ===== src/Rollback.antt =====
-- nightfall-optimist/src/event-handlers/rollback.mjs
pub mod Validate
pub mod Handler
pub mod Returned
pub mod Blocks
pub mod Calls
pub mod Removed
pub mod Judged
pub mod Cut
pub mod Shared
pub mod Examples
