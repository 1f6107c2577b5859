-- ===== src/TransactionChecks/Examples.antt =====
-- Tests of the model of nightfall-optimist/src/services/transaction-checker.mjs on a block with one
-- transaction, and the theorems about it there.
use nightfall.Common.{
  ℕ, ◌≡◌, refl, ap, ◌∙◌, inl, inr, some, List, [], ◌∷◌, length, replicate, false, ◌==◌, ok, throws,
  difference,
}
use nightfall.BlockAssembler.Mempool.{Transaction, Pooled}
use nightfall.BlockChecks.Check.{check_block}
use nightfall.BlockChecks.Examples.{first_block, second_block, block_of, database}
use nightfall.TransactionChecks.Documents.{
  text, Details, World, nullifier, duplicate_in_l2, type_error,
}
use nightfall.TransactionChecks.Proofs.{Caches, Verifier, lookup}
use nightfall.TransactionChecks.Check.{check_transaction}
use nightfall.TransactionChecks.Free.{BlocksStored}
use nightfall.TransactionChecks.Caching.{Coherent, check_transaction-Coherent}
use nightfall.TransactionChecks.Verdicts.{Accepted, check_transaction-Accepted}
use nightfall.TransactionChecks.Spending.{
  block_options, check_in_block, SpendsOnce, check_block-SpendsOnce,
}

abbrev pub tx_of : ℕ → List ℕ → List ℕ → Transaction
tx_of hash nullifiers commitments = record {
  transaction_hash = hash;
  nullifiers = nullifiers;
  historic_root_block_number_l2 = 0 ∷ 0 ∷ [];
  commitments = commitments;
}

abbrev pub in_block_zero : Pooled
in_block_zero = record {
  transaction = tx_of 1 (3 ∷ 0 ∷ []) (5 ∷ 0 ∷ []);
  mempool = false;
  block_number_l2 = some 0;
}

abbrev pub some_details : Transaction → Details
some_details tx = record {
  value = 10;
  fee = text tx.transaction_hash;
  circuit_hash = 8;
  token_type = 0;
  erc_address = 2;
  token_id_limbs = 0 ∷ [];
  recipient_address = 0;
  compressed_secrets = 0 ∷ 0 ∷ [];
  proof = 1 ∷ 2 ∷ 3 ∷ 4 ∷ [];
}

abbrev pub world : World
world = record {
  details = some_details;
  pool = in_block_zero ∷ [];
  block_by_number = block_of;
  number_of_l2_blocks = 2;
  verification_key = λ h. replicate 33 h;
  fee_l2_token_address = 6;
}

-- Whether a proof has four parts.
abbrev pub verifier : Verifier
verifier = record { decompress_proof = λ p. some p; verify = λ key ins p. some (length p == 4) }

abbrev pub no_caches : Caches
no_caches = record { verification_keys = []; fee_addresses = [] }

abbrev fresh_tx : Transaction
fresh_tx = tx_of 2 (4 ∷ 0 ∷ []) (7 ∷ 0 ∷ [])

fresh_test : (check_transaction verifier world (block_options 1) fresh_tx no_caches).0 ≡ ok tt
unfolding check_transaction difference
fresh_test = refl

spent_test :
    (check_transaction verifier world
      (block_options 1)
      (tx_of 2 (4 ∷ 3 ∷ []) (7 ∷ 0 ∷ []))
      no_caches).0
    ≡ throws (duplicate_in_l2 nullifier 1 in_block_zero.transaction first_block)
unfolding check_transaction difference
spent_test = refl

-- A historic root that is not there is no TransactionError.
no_root_test :
    (check_transaction verifier
      (record world { number_of_l2_blocks = 9 })
      (block_options 1)
      (record fresh_tx { historic_root_block_number_l2 = 5 ∷ 0 ∷ [] })
      no_caches).0
    ≡ throws type_error
unfolding check_transaction difference
no_root_test = refl

world-BlocksStored : BlocksStored world
world-BlocksStored d n (inl e) is_n =
    (first_block, ap block_of (zero_of (ap (λ (x : Pooled). x.block_number_l2) e ∙ is_n)))
  where
    zero_of : some 0 ≡ some n → n ≡ 0
    zero_of h = cc
world-BlocksStored d n (inr later) is_n = absurd later

pub no_caches-Coherent : Coherent world no_caches
unfolding lookup
no_caches-Coherent = record { keys = λ k a h. absurd (cc h); fees = λ k a h. absurd (cc h) }

check_transaction-Accepted_example : Accepted verifier world fresh_tx (block_options 1)
check_transaction-Accepted_example =
    check_transaction-Accepted verifier world (block_options 1) fresh_tx no_caches
      world-BlocksStored no_caches-Coherent fresh_test

check_transaction-Coherent_example :
    Coherent world (check_transaction verifier world (block_options 1) fresh_tx no_caches).1
check_transaction-Coherent_example =
    check_transaction-Coherent verifier world (block_options 1) fresh_tx no_caches
      no_caches-Coherent

block_test :
    check_block length
      (check_in_block verifier world (λ tx. no_caches) 9)
      database
      second_block
      (fresh_tx ∷ [])
    ≡ ok tt
unfolding check_block check_in_block difference
block_test = refl

check_block-SpendsOnce_example : SpendsOnce world second_block (fresh_tx ∷ []) nullifier
check_block-SpendsOnce_example =
    check_block-SpendsOnce length verifier world (λ tx. no_caches) 9 database second_block
      (fresh_tx ∷ []) world-BlocksStored (λ tx. no_caches-Coherent) block_test nullifier
