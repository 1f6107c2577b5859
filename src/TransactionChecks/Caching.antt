-- ===== src/TransactionChecks/Caching.antt =====
-- The caches of `verifyProof` in nightfall-optimist/src/services/transaction-checker.mjs stay true to
-- the contracts.
use nightfall.Common.{
  ℕ, ◌≡◌, refl, ap, ◌∙◌, inl, inr, Option, none, some, List, ◌∷◌, Bool-cases, eq-cases, eq→==,
  ne→==, ltb, length, Result, ok, throws,
}
use nightfall.BlockAssembler.Mempool.{Transaction}
use nightfall.TransactionChecks.Documents.{World, CheckError, Options}
use nightfall.TransactionChecks.Proofs.{
  Caches, Verifier, lookup, or_cache, with_roots, verify_proof,
}
use nightfall.TransactionChecks.Check.{then_verify, check_duplicates_and_roots, check_transaction}

-- Whatever is cached is what the contract says.
abbrev pub True : {A : Type 0} → (ℕ → A) → List (ℕ × A) → Type 0
True {A} contract cache = (key : ℕ) (a : A) → lookup key cache ≡ some a → a ≡ contract key

pub record Coherent (w : World) (caches : Caches) : Type 0 where
  pub keys : True w.verification_key caches.verification_keys
  pub fees : True (λ h. w.fee_l2_token_address) caches.fee_addresses

pub True-or_cache :
    {A : Type 0} (contract : ℕ → A) (cache : List (ℕ × A)) (key : ℕ) (o : Option A)
    → lookup key cache ≡ o
    → True contract cache
    → ((or_cache key (contract key) cache o).0 ≡ contract key)
      × True contract (or_cache key (contract key) cache o).1
unfolding lookup
True-or_cache {A} contract cache key (some a) same truth = (truth key a same, truth)
True-or_cache {A} contract cache key none same truth = (refl, added)
  where
    added : True contract ((key, contract key) ∷ cache)
    added other a h = elim (eq-cases key other) [
      | inl e ↦
          let found : some (contract key) ≡ some a = rw (eq→== key other e) at h in
          some-eq found ∙ ap contract e
      | inr ne ↦ truth other a (rw (ne→== key other ne) at h)
    ]
      where
        some-eq : {x y : A} → some x ≡ some y → y ≡ x
        some-eq h = cc

module _ (v : Verifier) (w : World) (tx : Transaction) where
  abbrev circuit : ℕ
  circuit = (w.details tx).circuit_hash

  with_roots-Coherent :
      (key : List ℕ) (caches : Caches) (roots : Option (List ℕ))
      → Coherent w caches
      → Coherent w (with_roots v w tx key caches roots).1
  with_roots-Coherent key caches none coherent = coherent
  with_roots-Coherent key caches (some roots) coherent = record {
    keys = coherent.keys;
    fees =
        (True-or_cache (λ h. w.fee_l2_token_address) caches.fee_addresses circuit
          (lookup circuit caches.fee_addresses) refl coherent.fees).1;
  }

  abbrev pub key_of : Caches → List ℕ × List (ℕ × List ℕ)
  key_of caches =
      or_cache circuit (w.verification_key circuit) caches.verification_keys
        (lookup circuit caches.verification_keys)

  pub key_of_lem :
      (caches : Caches)
      → Coherent w caches
      → ((key_of caches).0 ≡ w.verification_key circuit)
        × Coherent w (record caches { verification_keys = (key_of caches).1 })
  key_of_lem caches coherent =
      let (same, truth) =
        True-or_cache w.verification_key caches.verification_keys circuit
          (lookup circuit caches.verification_keys) refl coherent.keys in
      (same, record { keys = truth; fees = coherent.fees })

  verify_proof-Coherent :
      (caches : Caches) → Coherent w caches → Coherent w (verify_proof v w tx caches).1
  unfolding verify_proof
  verify_proof-Coherent caches coherent =
      let (same, coherent') = key_of_lem caches coherent in
      elim (Bool-cases (ltb (length (key_of caches).0) 33)) [
        | inl t ↦ rw t coherent'
        | inr f ↦ rw f (with_roots-Coherent (key_of caches).0 _ _ coherent')
      ]

  then_verify-Coherent :
      (caches : Caches) (first : Result CheckError (Unit {0}))
      → Coherent w caches
      → Coherent w (then_verify v w tx caches first).1
  then_verify-Coherent caches (throws e) coherent = coherent
  then_verify-Coherent caches (ok x) coherent = verify_proof-Coherent caches coherent

-- If the caches hold what the contracts say, they do after `checkTransaction`, whether it returns or
-- throws.
pub check_transaction-Coherent :
    (v : Verifier) (w : World) (options : Options) (tx : Transaction) (caches : Caches)
    → Coherent w caches
    → Coherent w (check_transaction v w options tx caches).1
unfolding check_transaction
check_transaction-Coherent v w options tx caches coherent =
    then_verify-Coherent v w tx caches (check_duplicates_and_roots w options tx) coherent
