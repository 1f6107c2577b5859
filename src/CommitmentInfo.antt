-- ===== src/CommitmentInfo.antt =====
-- nightfall-client/src/utils/getCommitmentInfo.mjs: the inputs and outputs of a transaction.
mod Request
mod Provided
mod Inputs
mod Outputs
mod Info
mod Marks
mod Idle
mod Checks
mod Restores
mod Balance
mod Returned
mod Within
mod Few
mod Paid
mod Covers
mod TopUp
mod Examples
