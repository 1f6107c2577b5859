-- ===== src/Commitments.antt =====
-- The choice of the commitments to spend, of nightfall-client/src/services/commitment-storage.mjs.
pub mod Values
pub mod Subsets
pub mod Store
pub mod Usable
pub mod Pending
pub mod Reorganise
pub mod Counting
pub mod Selection
pub mod Spending
pub mod Asks
pub mod Funding
pub mod Examples
pub mod Pairs
pub mod Filtered
pub mod Two
pub mod Sound
pub mod Largest
pub mod Complete
