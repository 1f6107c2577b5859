-- ===== src/TransactionChecks/Proofs.antt =====
-- `verifyProof` of nightfall-optimist/src/services/transaction-checker.mjs, with its two caches. The
-- decompression of a proof and the verifier of snarkjs are arguments.
use nightfall.Common.{
  ℕ, Option, none, some, List, [], ◌∷◌, ◌++◌, length, Bool, true, false, ◌==◌, ltb, if◌then◌else◌,
  Result, ok, throws,
}
use nightfall.BlockAssembler.Mempool.{Transaction}
use nightfall.BlockChecks.Check.{Block}
use nightfall.TransactionChecks.Documents.{
  amount, World, Details, CheckError, verification_key_incorrect, proof_not_verified,
  decompression_failed, type_error,
}
use nightfall.TransactionChecks.Roots.{tail}

-- `CACHE_VERIFICATION_KEY` and `CACHE_FEE_L2_TOKEN_ADDRESS`, both by circuit hash.
pub record Caches : Type 0 where
  pub verification_keys : List (ℕ × List ℕ)
  pub fee_addresses : List (ℕ × ℕ)

-- What throws is `none`.
pub record Verifier : Type 0 where
  pub decompress_proof : List ℕ → Option (List ℕ)
  pub verify : List ℕ → List ℕ → List ℕ → Option Bool

unfoldable pub lookup {ℓ} : {A : Type ℓ} → ℕ → List (ℕ × A) → Option A
lookup key [] = none
lookup key (e ∷ es) = let rest = lookup key es in if e.0 == key then some e.1 else rest

-- A cached value, or else that of the contract, which is then cached.
abbrev pub or_cache {ℓ} : {A : Type ℓ} → ℕ → A → List (ℕ × A) → Option A → A × List (ℕ × A)
or_cache key fresh cache none = (fresh, (key, fresh) ∷ cache)
or_cache key fresh cache (some cached) = (cached, cache)

abbrev pub root_or_none : Option Block → Option ℕ
root_or_none none = none
root_or_none (some b) = some b.root

abbrev pub add_root : Option ℕ → Option (List ℕ) → Option (List ℕ)
add_root none roots = none
add_root (some r) none = none
add_root (some r) (some roots) = some (r ∷ roots)

abbrev pub first_numbered : World → List ℕ → Option Block
first_numbered w [] = none
first_numbered w (n ∷ ns) = w.block_by_number n

-- The historic roots, by the numbers of their blocks. The promise of a block is never null, so that
-- `?? { root: ZERO }` does nothing, and the root of a block that is not there is a TypeError: `none`.
unfoldable pub historic_roots : World → List ℕ → List ℕ → Option (List ℕ)
historic_roots w [] numbers = some []
historic_roots w (n ∷ ns) numbers =
    add_root (if n == 0 then some 0 else root_or_none (first_numbered w numbers))
      (historic_roots w ns (tail numbers))

unfoldable pub inputs : Details → Transaction → List ℕ → ℕ → List ℕ
inputs d tx roots fee_address =
    (d.value ∷ amount d.fee ∷ d.circuit_hash ∷ d.token_type ∷ [])
    ++ (tx.historic_root_block_number_l2
        ++ ((d.erc_address ∷ [])
            ++ (d.token_id_limbs
                ++ ((d.recipient_address ∷ [])
                    ++ (tx.commitments
                        ++ (tx.nullifiers
                            ++ (d.compressed_secrets ++ (roots ++ (fee_address ∷ [])))))))))

abbrev pub to_verdict : Option Bool → Result CheckError (Unit {0})
to_verdict none = throws decompression_failed
to_verdict (some true) = ok tt
to_verdict (some false) = throws proof_not_verified

abbrev pub verify_with :
    (List ℕ → List ℕ → List ℕ → Option Bool)
    → List ℕ
    → List ℕ
    → Option (List ℕ)
    → Result CheckError (Unit {0})
verify_with verify key ins none = throws decompression_failed
verify_with verify key ins (some proof) = to_verdict (verify key ins proof)

-- From the historic roots on.
abbrev pub with_roots :
    Verifier
    → World
    → Transaction
    → List ℕ
    → Caches
    → Option (List ℕ)
    → Result CheckError (Unit {0}) × Caches
with_roots v w tx key caches none = (throws type_error, caches)
with_roots v w tx key caches (some roots) =
    let d = w.details tx in
    let fee =
      or_cache d.circuit_hash w.fee_l2_token_address caches.fee_addresses
        (lookup d.circuit_hash caches.fee_addresses) in
    (
      verify_with v.verify key (inputs d tx roots fee.0) (v.decompress_proof d.proof),
      record caches { fee_addresses = fee.1 },
    )

unfoldable pub verify_proof :
    Verifier → World → Transaction → Caches → Result CheckError (Unit {0}) × Caches
unfolding lookup historic_roots inputs
verify_proof v w tx caches =
    let d = w.details tx in
    let key =
      or_cache d.circuit_hash (w.verification_key d.circuit_hash) caches.verification_keys
        (lookup d.circuit_hash caches.verification_keys) in
    let caches' = record caches { verification_keys = key.1 } in
    if ltb (length key.0) 33
    then (throws verification_key_incorrect, caches')
    else with_roots v w tx key.0 caches'
        (historic_roots w tx.nullifiers tx.historic_root_block_number_l2)
