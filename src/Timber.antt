-- ===== src/Timber.antt =====
-- The Merkle tree of common-files/classes/timber.mjs.
pub mod Tree
pub mod Path
pub mod Paths
pub mod Frontier
pub mod Batch
pub mod Object
pub mod Dense
pub mod FrontierSteps
pub mod Contract
pub mod Rooted
pub mod History
pub mod Membership
pub mod SiblingPaths
pub mod Binding
pub mod Order
pub mod Stateless
pub mod Examples
