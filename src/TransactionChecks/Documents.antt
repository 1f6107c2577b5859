-- ===== src/TransactionChecks/Documents.antt =====
-- What `checkTransaction` of nightfall-optimist/src/services/transaction-checker.mjs reads: the
-- transaction, the collections behind nightfall-optimist/src/services/database.mjs, the contracts.
use nightfall.Common.{
  ℕ, Option, none, some, List, [], ◌∷◌, Bool, true, false, not, ◌&&◌, ◌==◌, ltb, if◌then◌else◌, ℤ,
}
use nightfall.BlockAssembler.Mempool.{Transaction, Pooled, Pool, is_in}
use nightfall.BlockChecks.Check.{Block}

-- A fee is the hexadecimal text of twelve bytes, as `unpackTransactionInfo` gives it for a transaction
-- from the chain, or a Number, as the route `/offchain-transaction` makes it.
pub data Fee : Type 0 where
  text number : ℕ → Fee

-- `generalise(fee).bigInt`
abbrev pub amount : Fee → ℕ
amount (text n) = n
amount (number n) = n

-- `$gt` compares texts, which have one length, and Numbers, but never one with the other.
abbrev pub exceeds : Fee → Fee → Bool
exceeds (text m) (text n) = ltb n m
exceeds (number m) (number n) = ltb n m
exceeds (text m) (number n) = false
exceeds (number m) (text n) = false

-- The fields of a transaction that `Transaction` leaves out. They are a function of the transaction,
-- which has its hash.
pub record Details : Type 0 where
  pub value : ℕ
  pub fee : Fee
  pub circuit_hash : ℕ
  pub token_type : ℕ
  pub erc_address : ℕ
  pub token_id_limbs : List ℕ
  pub recipient_address : ℕ
  pub compressed_secrets : List ℕ
  pub proof : List ℕ

-- The collections of transactions and of blocks, and the two contracts.
pub record World : Type 0 where
  pub details : Transaction → Details
  pub pool : Pool
  pub block_by_number : ℕ → Option Block
  pub number_of_l2_blocks : ℕ
  pub verification_key : ℕ → List ℕ
  pub fee_l2_token_address : ℕ

-- The two functions for duplicates read one of two fields.
pub data Kind : Type 0 where
  commitment nullifier : Kind

abbrev pub values : Kind → Transaction → List ℕ
values commitment tx = tx.commitments
values nullifier tx = tx.nullifiers

-- The errors of the class TransactionError, and the TypeError of a block that is not there. A duplicate
-- in a block comes with its index, the other transaction and that one's block.
pub data CheckError : Type 0 where
  duplicate_in_mempool : Kind → ℕ → CheckError
  duplicate_in_l2 : Kind → ℕ → Transaction → Block → CheckError
  invalid_historic_root historic_root_too_new : CheckError
  verification_key_incorrect proof_not_verified decompression_failed : CheckError
  type_error : CheckError

abbrev pub kind_code : Kind → ℕ
kind_code commitment = 0
kind_code nullifier = 1

-- `err.code`, which a TypeError does not have.
abbrev pub error_code : CheckError → Option ℕ
error_code (duplicate_in_mempool k v) = some (kind_code k)
error_code (duplicate_in_l2 k i tx b) = some (kind_code k)
error_code invalid_historic_root = some 3
error_code historic_root_too_new = some 3
error_code verification_key_incorrect = some 2
error_code proof_not_verified = some 2
error_code decompression_failed = some 2
error_code type_error = none

-- `findOne(query)`
unfoldable pub find_document : (Pooled → Bool) → Pool → Option Pooled
find_document query [] = none
find_document query (d ∷ ds) = let rest = find_document query ds in if query d then some d else rest

-- `getMempoolTransactionByCommitment` and `getMempoolTransactionByNullifier`
unfoldable pub get_mempool_transaction : World → Kind → ℕ → Fee → Option Pooled
unfolding find_document is_in
get_mempool_transaction w kind value fee =
    find_document
      (λ d.
        is_in (values kind d.transaction) value
        && exceeds (w.details d.transaction).fee fee
        && d.mempool)
      w.pool

-- `{ $gt: -1, $ne: blockNumberL2OfTx }`, where the number of the transaction's block may be undefined.
abbrev pub in_other_block : Option ℕ → Option ℕ → Bool
in_other_block own none = false
in_other_block none (some n) = true
in_other_block (some m) (some n) = not (n == m)

-- `getTransactionL2ByCommitment` and `getTransactionL2ByNullifier`
unfoldable pub get_transaction_l2 : World → Kind → ℕ → Option ℕ → Option Pooled
unfolding find_document is_in
get_transaction_l2 w kind value own =
    find_document
      (λ d. is_in (values kind d.transaction) value && in_other_block own d.block_number_l2) w.pool

-- `getBlockByBlockNumberL2`
abbrev pub stored_block : World → Option ℕ → Option Block
stored_block w none = none
stored_block w (some n) = w.block_by_number n

-- The arguments of `checkTransaction`; the numbers may be undefined.
pub record Options : Type 0 where
  pub check_duplicates_in_l2 : Bool
  pub check_duplicates_in_mempool : Bool
  pub transaction_block_number_l2 : Option ℕ
  pub last_valid_block_number_l2 : Option ℤ
