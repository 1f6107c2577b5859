-- ===== src/BlockChecks.antt =====
-- nightfall-optimist/src/services/check-block.mjs, the checks of a proposed block.
pub mod Duplicates
pub mod Positions
pub mod Distinct
pub mod Check
pub mod Places
pub mod Accepted
pub mod Verdicts
pub mod Acceptance
pub mod Examples
