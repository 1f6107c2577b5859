-- ===== src/Rollback/Validate.antt =====
-- The loop of `rollbackEventHandler` in nightfall-optimist/src/event-handlers/rollback.mjs that decides
-- which transactions of a removed block go back to the mempool.
use nightfall.Common.{ℕ, List, [], ◌∷◌, ◌++◌, Bool, false, not, ◌&&◌, ◌||◌, if◌then◌else◌}
use nightfall.BlockAssembler.Mempool.{Transaction, is_in}
use nightfall.BlockChecks.Duplicates.{nonzero}

-- `commitmentsList` and `nullifiersList`
pub record Seen : Type 0 where
  pub commitments_list : List ℕ
  pub nullifiers_list : List ℕ

-- The inner loops: whether one of the values is in the list.
unfoldable pub any_in : List ℕ → List ℕ → Bool
unfolding is_in
any_in list [] = false
any_in list (v ∷ vs) = is_in list v || any_in list vs

-- The `try` block returns.
unfoldable pub accepts : (Transaction → Bool) → Seen → Transaction → Bool
unfolding any_in
accepts check_transaction seen tx =
    check_transaction tx
    && not (any_in seen.commitments_list tx.commitments)
    && not (any_in seen.nullifiers_list tx.nullifiers)

abbrev pub push : Seen → Transaction → Seen
push seen tx = record {
  commitments_list = seen.commitments_list ++ nonzero tx.commitments;
  nullifiers_list = seen.nullifiers_list ++ nonzero tx.nullifiers;
}

pub record Outcome : Type 0 where
  pub valid_transactions : List Transaction
  pub invalid_transactions : List Transaction

-- The loop over the transactions of a block, which are sorted by fee.
unfoldable pub validate : (Transaction → Bool) → Seen → List Transaction → Outcome
unfolding accepts nonzero
validate check_transaction seen [] = record { valid_transactions = []; invalid_transactions = [] }
validate check_transaction seen (tx ∷ txs) =
    let accepted = validate check_transaction (push seen tx) txs in
    let rejected = validate check_transaction seen txs in
    if accepts check_transaction seen tx
    then record accepted { valid_transactions = tx ∷ accepted.valid_transactions }
    else record rejected { invalid_transactions = tx ∷ rejected.invalid_transactions }

abbrev pub nothing_seen : Seen
nothing_seen = record { commitments_list = []; nullifiers_list = [] }
