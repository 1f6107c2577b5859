-- ===== src/TransactionChecks/Verdicts.antt =====
-- What it means that `checkTransaction` of
-- nightfall-optimist/src/services/transaction-checker.mjs returns.
use nightfall.Common.{
  Among, ℕ, zero, suc, ◌≤◌, ◌≡◌, ◌≢◌, refl, sym, ap, subst, ◌∙◌, ◌⊎◌, inl, inr, Option, none, some,
  List, [], ◌∷◌, get_elem?, length, Bool, true, false, Bool-cases, ◌==◌, ==→eq, ==→ne, ltb, ltb→le,
  Result, ok, throws, through, ℤ, pos, negsuc,
}
use nightfall.BlockAssembler.Mempool.{Transaction}
use nightfall.TransactionChecks.Documents.{
  World, Kind, commitment, nullifier, values, CheckError, Options,
}
use nightfall.TransactionChecks.Duplicates.{check_values}
use nightfall.TransactionChecks.Roots.{
  latest, is_above, first_is_zero, tail, check_root, check_roots, check_historic_root_block_number,
}
use nightfall.TransactionChecks.Proofs.{
  Caches, Verifier, lookup, or_cache, historic_roots, inputs, to_verdict, verify_with, with_roots,
  verify_proof,
}
use nightfall.TransactionChecks.Check.{check_duplicates_and_roots, then_verify, check_transaction}
use nightfall.TransactionChecks.Free.{BlocksStored, Free, check_values-Free}
use nightfall.TransactionChecks.Caching.{Coherent, True-or_cache, key_of, key_of_lem}

-- A block number is not above the latest.
abbrev pub AtMost : ℕ → ℤ → Type 0
AtMost n (pos m) = n ≤ m
AtMost n (negsuc m) = ⊥

-- The number of a nullifier that is zero is 0, and that of another one not above the latest.
abbrev pub RootsFine : List ℕ → List ℕ → ℤ → Type 0
RootsFine numbers nullifiers last =
    (i n : ℕ)
    → get_elem? numbers i ≡ some n
    → (get_elem? nullifiers i ≡ some 0 → n ≡ 0) × (get_elem? nullifiers i ≢ some 0 → AtMost n last)

is_above-AtMost : (n : ℕ) (last : ℤ) → is_above n last ≡ false → AtMost n last
is_above-AtMost n (pos m) h = ltb→le m n h
is_above-AtMost n (negsuc m) h = absurd (cc h)

first_lem :
    (nullifiers : List ℕ)
    → ((first_is_zero nullifiers ≡ true) × (get_elem? nullifiers 0 ≡ some 0))
      ⊎ ((first_is_zero nullifiers ≡ false) × (get_elem? nullifiers 0 ≢ some 0))
first_lem [] = inr (refl, λ h. cc h)
first_lem (n ∷ ns) = elim (Bool-cases (n == 0)) [
  | inl t ↦ inl (t, ap (λ x. some x) (==→eq n 0 t))
  | inr f ↦ inr (f, λ h. ==→ne n 0 f (some-eq h))
]
  where
    some-eq : {a b : ℕ} → some a ≡ some b → a ≡ b
    some-eq h = cc

check_root-Fine :
    (nullifiers : List ℕ) (n : ℕ) (last : ℤ)
    → check_root (first_is_zero nullifiers) n last ≡ ok tt
    → (get_elem? nullifiers 0 ≡ some 0 → n ≡ 0) × (get_elem? nullifiers 0 ≢ some 0 → AtMost n last)
check_root-Fine nullifiers n last h = elim (first_lem nullifiers) [
  | inl (t, is_zero) ↦
      let g = rw t at h in
      elim (Bool-cases (n == 0)) [
        | inl e ↦ ((λ z. ==→eq n 0 e), λ ne. absurd (ne is_zero))
        | inr f ↦ let k = rw f at g in absurd (cc k)
      ]
  | inr (f, not_zero) ↦
      let g = rw f at h in
      elim (Bool-cases (is_above n last)) [
        | inl t ↦ let k = rw t at g in absurd (cc k)
        | inr below ↦ ((λ z. absurd (not_zero z)), λ ne. is_above-AtMost n last below)
      ]
]

get_elem?-tail : (ns : List ℕ) (i : ℕ) → get_elem? (tail ns) i ≡ get_elem? ns (suc i)
get_elem?-tail [] i = refl
get_elem?-tail (n ∷ ns) i = refl

check_roots-Fine :
    (numbers nullifiers : List ℕ) (last : ℤ)
    → check_roots numbers nullifiers last ≡ ok tt
    → RootsFine numbers nullifiers last
unfolding check_roots
check_roots-Fine [] nullifiers last h i n e = absurd (cc e)
check_roots-Fine (b ∷ bs) nullifiers last h zero n e =
    let (u, first, rest) =
      through (check_root (first_is_zero nullifiers) b last)
        (λ u. check_roots bs (tail nullifiers) last) h in
    subst
      (λ n.
        (get_elem? nullifiers 0 ≡ some 0 → n ≡ 0)
        × (get_elem? nullifiers 0 ≢ some 0 → AtMost n last))
      (some-eq e) (check_root-Fine nullifiers b last first)
  where
    some-eq : {a b : ℕ} → some a ≡ some b → a ≡ b
    some-eq h = cc
check_roots-Fine (b ∷ bs) nullifiers last h (suc i) n e =
    let (u, first, rest) =
      through (check_root (first_is_zero nullifiers) b last)
        (λ u. check_roots bs (tail nullifiers) last) h in
    let (zero_case, other_case) = check_roots-Fine bs (tail nullifiers) last rest i n e in
    (
      (λ z. zero_case (get_elem?-tail nullifiers i ∙ z)),
      λ ne. other_case (λ z. ne (sym (get_elem?-tail nullifiers i) ∙ z)),
    )

-- The proof verifies on the inputs, with the key and the address of the contracts.
pub record Verifies (v : Verifier) (w : World) (tx : Transaction) : Type 0 where
  pub roots : List ℕ
  pub known : historic_roots w tx.nullifiers tx.historic_root_block_number_l2 ≡ some roots
  pub long : 33 ≤ length (w.verification_key (w.details tx).circuit_hash)
  pub proof : List ℕ
  pub decompresses : v.decompress_proof (w.details tx).proof ≡ some proof
  pub verifies :
      v.verify
        (w.verification_key (w.details tx).circuit_hash)
        (inputs (w.details tx) tx roots w.fee_l2_token_address)
        proof
      ≡ some true

verdict_lem : (o : Option Bool) → to_verdict o ≡ ok tt → o ≡ some true
verdict_lem none h = absurd (cc h)
verdict_lem (some true) h = refl
verdict_lem (some false) h = absurd (cc h)

verify_with_lem :
    (verify : List ℕ → List ℕ → List ℕ → Option Bool) (key ins : List ℕ) (o : Option (List ℕ))
    → verify_with verify key ins o ≡ ok tt
    → (proof : List ℕ) × (o ≡ some proof) × (verify key ins proof ≡ some true)
verify_with_lem verify key ins none h = absurd (cc h)
verify_with_lem verify key ins (some proof) h = (proof, refl, verdict_lem _ h)

module _ (v : Verifier) (w : World) (tx : Transaction) where
  with_roots-Verifies :
      (key : List ℕ) (caches : Caches) (roots : Option (List ℕ))
      → Coherent w caches
      → key ≡ w.verification_key (w.details tx).circuit_hash
      → 33 ≤ length key
      → historic_roots w tx.nullifiers tx.historic_root_block_number_l2 ≡ roots
      → (with_roots v w tx key caches roots).0 ≡ ok tt
      → Verifies v w tx
  with_roots-Verifies key caches none coherent same long known h = absurd (cc h)
  with_roots-Verifies key caches (some roots) coherent same long known h =
      let d = w.details tx in
      let fee =
        or_cache d.circuit_hash w.fee_l2_token_address caches.fee_addresses
          (lookup d.circuit_hash caches.fee_addresses) in
      let (fee_same, truth) =
        True-or_cache (λ h. w.fee_l2_token_address) caches.fee_addresses d.circuit_hash
          (lookup d.circuit_hash caches.fee_addresses) refl coherent.fees in
      let (proof, decompresses, verifies) = verify_with_lem v.verify key _ _ h in
      record {
        roots = roots;
        known = known;
        long = subst (λ (k : List ℕ). 33 ≤ length k) same long;
        proof = proof;
        decompresses = decompresses;
        verifies =
            ap (λ n. v.verify (w.verification_key d.circuit_hash) (inputs d tx roots n) proof)
              (sym fee_same)
            ∙ ap (λ k. v.verify k (inputs d tx roots fee.0) proof) (sym same)
            ∙ verifies;
      }

  verify_proof-Verifies :
      (caches : Caches)
      → Coherent w caches
      → (verify_proof v w tx caches).0 ≡ ok tt
      → Verifies v w tx
  unfolding verify_proof
  verify_proof-Verifies caches coherent h =
      let (same, coherent') = key_of_lem v w tx caches coherent in
      elim (Bool-cases (ltb (length (key_of v w tx caches).0) 33)) [
        | inl t ↦ let g = rw t at h in absurd (cc g)
        | inr f ↦
            with_roots-Verifies (key_of v w tx caches).0
              (record caches { verification_keys = (key_of v w tx caches).1 }) _ coherent' same
              (ltb→le _ _ f) refl (rw f at h)
      ]

  -- What a transaction must be.
  pub record Accepted (options : Options) : Type 0 where
    pub free :
        (kind : Kind) (value : ℕ)
        → Among value (values kind tx)
        → value ≢ 0
        → Free w options kind tx value
    pub roots_fine :
        RootsFine tx.historic_root_block_number_l2 tx.nullifiers
          (latest options.last_valid_block_number_l2 w.number_of_l2_blocks)
    pub proof_verifies : Verifies v w tx

  then_verify-Accepted :
      (options : Options) (caches : Caches) (first : Result CheckError (Unit {0}))
      → BlocksStored w
      → Coherent w caches
      → check_duplicates_and_roots w options tx ≡ first
      → (then_verify v w tx caches first).0 ≡ ok tt
      → Accepted options
  unfolding check_duplicates_and_roots check_historic_root_block_number
  then_verify-Accepted options caches (throws e) stored coherent same h = absurd (cc h)
  then_verify-Accepted options caches (ok x) stored coherent same h =
      let (u, of_commitments, rest) =
        through (check_values w options commitment tx 0 tx.commitments) _ same in
      let (u', of_nullifiers, roots) =
        through (check_values w options nullifier tx 0 tx.nullifiers) _ rest in
      record {
        free = free_of of_commitments of_nullifiers;
        roots_fine = check_roots-Fine _ _ _ roots;
        proof_verifies = verify_proof-Verifies caches coherent h;
      }
    where
      free_of :
          check_values w options commitment tx 0 tx.commitments ≡ ok tt
          → check_values w options nullifier tx 0 tx.nullifiers ≡ ok tt
          → (kind : Kind) (value : ℕ) → Among value (values kind tx)
          → value ≢ 0
          → Free w options kind tx value
      free_of p q commitment value among ne =
          check_values-Free w stored options commitment tx 0 tx.commitments p value among ne
      free_of p q nullifier value among ne =
          check_values-Free w stored options nullifier tx 0 tx.nullifiers q value among ne

-- If every block with a transaction of the collection is stored, and the caches hold what the contracts
-- say, then for a transaction for which `checkTransaction` returns: no other transaction of the mempool
-- whose fee exceeds its own as the database compares them (text and Number never do), and none of
-- another block, has one of its commitments or nullifiers other than zero, as far as this was to be
-- checked; its historic block numbers are 0 for the nullifiers that are
-- zero, and not above the latest for the others; and its proof verifies with the key of the contract.
pub check_transaction-Accepted :
    (v : Verifier) (w : World) (options : Options) (tx : Transaction) (caches : Caches)
    → BlocksStored w
    → Coherent w caches
    → (check_transaction v w options tx caches).0 ≡ ok tt
    → Accepted v w tx options
unfolding check_transaction
check_transaction-Accepted v w options tx caches stored coherent h =
    then_verify-Accepted v w tx options caches (check_duplicates_and_roots w options tx) stored
      coherent refl h
