-- ===== src/Rollback/Examples.antt =====
-- Tests of the model of nightfall-optimist/src/event-handlers/rollback.mjs on a block of three
-- transactions, and the theorems about it at that block.
use nightfall.Common.{
  Among, ℕ, ◌≡◌, refl, some, none, List, [], ◌∷◌, Bool, true, false, not, ◌==◌, if◌then◌else◌,
}
use nightfall.BlockAssembler.Mempool.{Transaction, Pooled, is_in}
use nightfall.Rollback.Validate.{validate, nothing_seen}
use nightfall.Rollback.Handler.{
  StoredBlock, Collections, DatabaseCall, deletion, return_to_mempool, removal, all_take_effect,
  rollback_event_handler,
}
use nightfall.Rollback.Cut.{Cut}
use nightfall.Rollback.Shared.{NoConflict, validate-NoConflict}

abbrev spends : ℕ → ℕ → Transaction
spends hash nullifier = record {
  transaction_hash = hash;
  nullifiers = nullifier ∷ 0 ∷ [];
  historic_root_block_number_l2 = [];
  commitments = 0 ∷ [];
}

abbrev txs : List Transaction
txs = spends 1 40 ∷ spends 2 40 ∷ spends 3 41 ∷ spends 4 42 ∷ []

-- The check fails for the third.
abbrev check_transaction : Transaction → Bool
check_transaction tx = not (tx.transaction_hash == 3)

validate_test : validate check_transaction nothing_seen txs ≡ record {
  valid_transactions = spends 1 40 ∷ spends 4 42 ∷ [];
  invalid_transactions = spends 2 40 ∷ spends 3 41 ∷ [];
}
unfolding validate
validate_test = refl

validate-NoConflict_example :
    NoConflict
      (λ (tx : Transaction). tx.commitments)
      (validate check_transaction nothing_seen txs).valid_transactions
    × NoConflict
        (λ (tx : Transaction). tx.nullifiers)
        (validate check_transaction nothing_seen txs).valid_transactions
validate-NoConflict_example = validate-NoConflict check_transaction txs

abbrev first : Pooled
first = record { transaction = spends 1 39; mempool = false; block_number_l2 = some 0 }

abbrev second : Pooled
second = record { transaction = spends 2 40; mempool = false; block_number_l2 = some 1 }

abbrev conflicting : Pooled
conflicting = record { transaction = spends 5 40; mempool = false; block_number_l2 = some 1 }

abbrev waiting : Pooled
waiting = record { transaction = spends 4 42; mempool = true; block_number_l2 = none }

abbrev block_one : StoredBlock
block_one = record { block_number_l2 = 1; transaction_hashes = 2 ∷ 5 ∷ [] }

abbrev block_zero : StoredBlock
block_zero = record { block_number_l2 = 0; transaction_hashes = 1 ∷ [] }

abbrev collections : Collections
collections = record {
  transactions = first ∷ second ∷ conflicting ∷ waiting ∷ [];
  blocks = block_one ∷ block_zero ∷ [];
  trees = 0 ∷ 1 ∷ [];
}

abbrev same_order : List Transaction → List Transaction
same_order txs = txs

abbrev started : Collections × List DatabaseCall
started = rollback_event_handler same_order (λ n tx. true) 1 collections

abbrev rolled_back : Collections
rolled_back = record {
  transactions = first ∷ record second { mempool = true; block_number_l2 = none } ∷ waiting ∷ [];
  blocks = block_zero ∷ [];
  trees = 0 ∷ [];
}

rollback_test : all_take_effect started.1 started.0 ≡ rolled_back
unfolding rollback_event_handler all_take_effect
rollback_test = refl

abbrev planned : List DatabaseCall
planned = deletion (5 ∷ []) ∷ return_to_mempool (2 ∷ []) 1 ∷ removal 1 ∷ []

-- The block goes first, and the deletion comes last.
abbrev other_order : List DatabaseCall
other_order = removal 1 ∷ return_to_mempool (2 ∷ []) 1 ∷ deletion (5 ∷ []) ∷ []

other_order_test : all_take_effect other_order started.0 ≡ rolled_back
unfolding rollback_event_handler all_take_effect
other_order_test = refl

-- The document with a hash.
abbrev by_hash : ℕ → Pooled
by_hash h =
    if h == 1 then first else if h == 2 then second else if h == 5 then conflicting else waiting

abbrev Linked : Pooled → Type 0
Linked d =
    (n : ℕ)
    → d.block_number_l2 ≡ some n
    → (b : StoredBlock) × Among b collections.blocks
      × (b.block_number_l2 ≡ n)
      × (is_in b.transaction_hashes d.transaction.transaction_hash ≡ true)
