-- ===== src/Lib.antt =====
-- A verification library for the JavaScript services of Nightfall 3.
--
-- Nightfall is an optimistic roll-up for private transfers. A client keeps the commitments its user
-- owns and chooses which of them a transaction spends; proposers collect transactions into layer 2
-- blocks; optimists keep the Merkle tree of all commitments, check the blocks, and roll the state back
-- when a challenge or a chain reorganisation removes one. The modules are:
--
--   Common         Boolean tests, lists over the native numbers, integers, powers of two and results with
--                  errors, which the other modules share.
--   Timber         common-files/classes/timber.mjs, the Merkle tree. Tree has the recursive helpers
--                  (_insertLeaf is insert_leaf_at, _checkMembership check_membership, hashTree hash_tree,
--                  pruneRightSubTree prune_right_sub_tree, verifySiblingPath verify_sibling_path), Frontier
--                  has calcFrontier, Batch batchLeaves, Object the class with insertLeaf, insertLeaves,
--                  rollback, toArray and getSiblingPath, and Stateless the stateless methods.
--   Commitments    nightfall-client/src/services/commitment-storage.mjs. Store has the collection with
--                  its queries and updates, Subsets the search findSubsetTwoCommitments,
--                  findSubsetNCommitments and selectCommitments, Usable verifyEnoughCommitments and
--                  findUsableCommitments.
--   BlockAssembler nightfall-optimist/src/services/block-assembler.mjs. Mempool has the flags of the
--                  transactions collection of nightfall-optimist/src/services/database.mjs, Assembly
--                  conditionalMakeBlock. A block is named by its transactions, and whether the websocket
--                  connects for a block is a function of its position.
--   BlockChecks    nightfall-optimist/src/services/check-block.mjs. Duplicates has the checks for
--                  duplicates, for commitments and nullifiers alike, Check the other checks and checkBlock.
--   NumberTheory   addMod, mulMod and powerMod of common-files/utils/crypto/number-theory.mjs, and
--                  modDivide of modular-division.mjs beside it (Division, gcdExtended is gcd_extended).
--   Rollback       nightfall-optimist/src/event-handlers/rollback.mjs. Validate has the loop that decides
--                  which transactions of a removed block go back to the mempool, Handler
--                  rollbackEventHandler with the functions of database.mjs that it calls.
--   CommitmentInfo nightfall-client/src/utils/getCommitmentInfo.mjs. Request has what is asked for,
--                  Provided the checks on provided commitments, Inputs the choice, Outputs the change, and
--                  Info getCommitmentInfo with its `catch`. Salts, nullifiers and tree paths are arguments.
--   TransactionChecks
--                  nightfall-optimist/src/services/transaction-checker.mjs, with the queries of
--                  database.mjs beside it. Duplicates has the two checks for duplicates, Roots
--                  checkHistoricRootBlockNumber, Proofs verifyProof with its caches; Spending joins
--                  checkTransaction to BlockChecks.
--   Submissions    nightfall-optimist/src/event-handlers/transaction-submitted.mjs, with saveTransaction and
--                  deleteDuplicateCommitmentsAndNullifiersFromMemPool of database.mjs.
--   ProposedBlocks nightfall-optimist/src/event-handlers/block-proposed.mjs, what it does with the transactions
--                  of a block. Its functions are not awaited: record_transactions takes the order of their
--                  calls of the database, and of the deletion, as a list, and Recorded says when it is fair.
--                  The hashes to spare are those of the transactions (process-calldata.mjs).
--
-- Values. A hash or a leaf is the number of its string of hexadecimal digits, the string ZERO is 0. A root
-- is such a string, or `none` for the Number 0 that a new object has. The hash function
-- `concatenate_then_hash` is a parameter, with the hash type as its first argument, of which nothing is
-- assumed. A fee is hexadecimal text or a Number, which the database does not compare with one another. The values
-- of commitments are numbers, since the program reads them as BigInt, and nothing is of fixed width.
-- The number -1, with which the documents say that a block number is unset, is `none`.
--
-- State. A method that changes an object takes the record and returns the new one. A collection is the
-- list of its documents, and an update of the database one function on it: a call that the program makes
-- under its mutex is one step. `Array.prototype.sort` is a parameter for the comparator that is not
-- consistent; it is only assumed to keep the elements.
--
-- Errors. A `throw` is `throws` of `Result`, with the errors of a component as a data type.
--
-- Fuel. calcFrontier recurses on the number of leaves, which the model passes as fuel: Timber.Contract
-- proves that fuel above the number of leaves is enough. statelessUpdate is given the number of its leaves,
-- since each call splits them. The digits of a number and its logarithm halve it, so that it bounds their
-- rounds, and so does powerMod with its exponent, and gcdExtended with its first argument. The pointers
-- of findSubsetTwoCommitments move towards each other, so the number of commitments bounds its loop. Every
-- other loop is by recursion on its list, on its tree or on the number of its rounds.
--
-- Not modelled: zero knowledge proofs and circuits, the contracts, HTTP, queues and websockets, MongoDB
-- itself, encryption and key derivation, the user interfaces, and the encodings of hexadecimal strings.
pub mod Common
pub mod Timber
pub mod Commitments
pub mod BlockAssembler
pub mod BlockChecks
pub mod NumberTheory
pub mod Rollback
pub mod CommitmentInfo
pub mod TransactionChecks
pub mod Submissions
pub mod ProposedBlocks
