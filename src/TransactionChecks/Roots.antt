-- ===== src/TransactionChecks/Roots.antt =====
-- `checkHistoricRootBlockNumber` of nightfall-optimist/src/services/transaction-checker.mjs.
use nightfall.Common.{
  ℕ, Option, none, some, List, [], ◌∷◌, Bool, true, false, ◌==◌, ltb, if◌then◌else◌, Result, ok,
  throws, ◌>>◌, ℤ, pos, negsuc, ◌-ℤ◌,
}
use nightfall.BlockAssembler.Mempool.{Transaction}
use nightfall.TransactionChecks.Documents.{
  World, CheckError, invalid_historic_root, historic_root_too_new, Options,
}

-- `if (lastValidBlockNumberL2)`: undefined and 0 are the same.
abbrev pub latest : Option ℤ → ℕ → ℤ
latest none blocks = pos blocks -ℤ pos 1
latest (some (pos n)) blocks = if n == 0 then pos blocks -ℤ pos 1 else pos n
latest (some (negsuc n)) blocks = negsuc n

-- Whether a block number is above the latest.
abbrev pub is_above : ℕ → ℤ → Bool
is_above n (pos m) = ltb m n
is_above n (negsuc m) = true

-- `transaction.nullifiers[i] === ZERO`, which undefined is not; and the rest of the array.
abbrev pub first_is_zero : List ℕ → Bool
first_is_zero [] = false
first_is_zero (n ∷ ns) = n == 0

abbrev pub tail : List ℕ → List ℕ
tail [] = []
tail (n ∷ ns) = ns

abbrev pub check_root : Bool → ℕ → ℤ → Result CheckError (Unit {0})
check_root true number last = if number == 0 then ok tt else throws invalid_historic_root
check_root false number last = if is_above number last then throws historic_root_too_new else ok tt

unfoldable pub check_roots : List ℕ → List ℕ → ℤ → Result CheckError (Unit {0})
check_roots [] nullifiers last = ok tt
check_roots (n ∷ ns) nullifiers last =
    check_root (first_is_zero nullifiers) n last >> check_roots ns (tail nullifiers) last

unfoldable pub check_historic_root_block_number :
    World → Options → Transaction → Result CheckError (Unit {0})
unfolding check_roots
check_historic_root_block_number w options tx =
    check_roots tx.historic_root_block_number_l2 tx.nullifiers
      (latest options.last_valid_block_number_l2 w.number_of_l2_blocks)
