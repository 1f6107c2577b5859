-- ===== src/Rollback/Judged.antt =====
-- What the loop over the blocks of `rollbackEventHandler` in
-- nightfall-optimist/src/event-handlers/rollback.mjs decides about the transactions.
use nightfall.Common.{
  Among, Among-map, Among-map_from, ℕ, ◌≤◌, ◌<◌, ◌≡◌, ◌⊎◌, refl, sym, ap, subst, ◌∙◌, inl, inr,
  some, List, [], ◌∷◌, map, Bool, true, false, Bool-cases, arith,
}
use nightfall.BlockAssembler.Mempool.{Transaction, Pooled, Pool, is_in}
use nightfall.BlockAssembler.Members.{is_in-Among, Among-is_in}
use nightfall.Rollback.Validate.{validate, nothing_seen}
use nightfall.Rollback.Shared.{validate-Merged, validate-passes}
use nightfall.Rollback.Handler.{
  StoredBlock, Collections, find_blocks_from_block_number_l2, is_at, get_transactions_by_hashes,
  hashes_of, Verdict, check_blocks, invalid_transactions,
}
use nightfall.Rollback.Blocks.{
  at_number, find_blocks-finds, find_blocks-from, get_transactions-gets, get_transactions-from,
  Merged-either, Merged-invalid, hashes_of-Among, invalid_transactions-has,
  invalid_transactions-from, Differ,
}

-- What the database is before: no two blocks have the same number, no two documents the same hash, and
-- the block of a transaction that is in one is stored and lists it.
pub record Consistent (db : Collections) : Type 0 where
  pub numbers : Differ db.blocks
  pub hashes :
      (d e : Pooled)
      → Among d db.transactions
      → Among e db.transactions
      → d.transaction.transaction_hash ≡ e.transaction.transaction_hash
      → d ≡ e
  pub linked :
      (d : Pooled) (n : ℕ)
      → Among d db.transactions
      → d.block_number_l2 ≡ some n
      → (b : StoredBlock) × Among b db.blocks
        × (b.block_number_l2 ≡ n)
        × (is_in b.transaction_hashes d.transaction.transaction_hash ≡ true)

-- What the loop over the blocks finds out.
abbrev pub verdicts_of :
    (List Transaction → List Transaction)
    → (ℕ → Transaction → Bool)
    → ℕ
    → Collections
    → List Verdict
verdicts_of sorted check_transaction number db =
    check_blocks sorted check_transaction db.transactions
      (find_blocks_from_block_number_l2 number db.blocks)

-- A sort has the elements of the list.
pub record Permutes (sorted : List Transaction → List Transaction) : Type 0 where
  pub has : (xs : List Transaction) (x : Transaction) → Among x xs → Among x (sorted xs)
  pub has_only : (xs : List Transaction) (x : Transaction) → Among x (sorted xs) → Among x xs

module _ (sorted : List Transaction → List Transaction)
    (check_transaction : ℕ → Transaction → Bool) where
  abbrev pub verdict_of : Pool → StoredBlock → Verdict
  verdict_of pool b = record {
    block_number = b.block_number_l2;
    outcome =
        validate (check_transaction b.block_number_l2) nothing_seen
          (sorted (get_transactions_by_hashes pool b));
  }

  check_blocks-map :
      (pool : Pool) (bs : List StoredBlock)
      → check_blocks sorted check_transaction pool bs ≡ map (verdict_of pool) bs
  unfolding check_blocks
  check_blocks-map pool [] = refl
  check_blocks-map pool (b ∷ bs) = ap (λ l. verdict_of pool b ∷ l) (check_blocks-map pool bs)

  module _ (permutes : Permutes sorted) (number : ℕ) (db : Collections)
      (consistent : Consistent db) where
    abbrev removed : List StoredBlock
    removed = find_blocks_from_block_number_l2 number db.blocks

    abbrev verdicts : List Verdict
    verdicts = check_blocks sorted check_transaction db.transactions removed

    pub has_verdict :
        (b : StoredBlock)
        → Among b db.blocks
        → number ≤ b.block_number_l2
        → Among (verdict_of db.transactions b) verdicts
    has_verdict b among le =
        subst (λ vs. Among (verdict_of db.transactions b) vs)
          (sym (check_blocks-map db.transactions removed))
          (Among-map (verdict_of db.transactions) b removed
            (find_blocks-finds number b db.blocks among le))

    from_block :
        (v : Verdict)
        → Among v verdicts
        → (b : StoredBlock) × (number ≤ b.block_number_l2) × (verdict_of db.transactions b ≡ v)
    from_block v among =
        let (b, there, e) =
          Among-map_from (verdict_of db.transactions) v removed
            (subst (λ vs. Among v vs) (check_blocks-map db.transactions removed) among) in
        (b, find_blocks-from number b db.blocks there, e)

    -- What is deleted was in a removed block.
    pub deleted_later :
        (d : Pooled)
        → Among d db.transactions
        → is_in (invalid_transactions verdicts) d.transaction.transaction_hash ≡ true
        → (n : ℕ) × (d.block_number_l2 ≡ some n) × (number ≤ n)
    deleted_later d among t =
        let (v, there, invalid) =
          invalid_transactions-from verdicts d.transaction.transaction_hash
            (Among-is_in d.transaction.transaction_hash (invalid_transactions verdicts) t) in
        let (b, le, e) = from_block v there in
        let (tx, listed, same_hash) =
          Among-map_from (λ (x : Transaction). x.transaction_hash) d.transaction.transaction_hash
            v.outcome.invalid_transactions invalid in
        let gets = get_transactions_by_hashes db.transactions b in
        let (x, in_pool, is_tx, is_at_b) = get_transactions-from db.transactions b tx (
          permutes.has_only gets tx (
            Merged-invalid tx
              (validate-Merged (check_transaction b.block_number_l2) nothing_seen (sorted gets))
              (subst (λ (y : Verdict). Among tx y.outcome.invalid_transactions) (sym e) listed))) in
        let is_d : x ≡ d =
          consistent.hashes x d in_pool among
            (ap (λ (y : Transaction). y.transaction_hash) is_tx ∙ same_hash) in
        (
          b.block_number_l2,
          subst (λ (y : Pooled). y.block_number_l2 ≡ some b.block_number_l2) is_d is_at_b,
          le,
        )

    pub elsewhere :
        (d : Pooled)
        → ((n : ℕ) → d.block_number_l2 ≡ some n → n < number)
        → (v : Verdict) → Among v verdicts
        → is_at v.block_number d ≡ false
    elsewhere d earlier v there = elim (Bool-cases (is_at v.block_number d)) [
      | inr f ↦ f
      | inl t ↦
          let (b, le, e) = from_block v there in
          absurd (
            omega (
              arith,
              le,
              ap (λ (y : Verdict). y.block_number) e,
              earlier v.block_number (at_number d v.block_number t),
            ))
    ]

    abbrev invalid : List ℕ
    invalid = invalid_transactions verdicts

    -- A transaction of a removed block is taken back or refused.
    pub judged :
        (d : Pooled) (n : ℕ)
        → Among d db.transactions
        → d.block_number_l2 ≡ some n
        → number ≤ n
        → (v : Verdict) × Among v verdicts
          × (v.block_number ≡ n)
          × ((is_in (hashes_of v.outcome.valid_transactions) d.transaction.transaction_hash ≡ true)
                × (check_transaction n d.transaction ≡ true)
              ⊎ (is_in invalid d.transaction.transaction_hash ≡ true))
    judged d n before is_n le =
        let (b, stored, same, lists) = consistent.linked d n before is_n in
        let v = verdict_of db.transactions b in
        let there : Among v verdicts =
          has_verdict b stored (subst (λ m. number ≤ m) (sym same) le) in
        (
          v,
          there,
          same,
          elim (Merged-either d.transaction
              (validate-Merged (check_transaction b.block_number_l2) nothing_seen
                (sorted (get_transactions_by_hashes db.transactions b)))
              (permutes.has (get_transactions_by_hashes db.transactions b) d.transaction (
                get_transactions-gets db.transactions b d before lists
                  (is_n ∙ ap (λ m. some m) (sym same))))) [
                    | inl valid ↦ inl (
                      hashes_of-Among d.transaction v.outcome.valid_transactions valid,
                      subst (λ m. check_transaction m d.transaction ≡ true) same
                          (validate-passes (check_transaction b.block_number_l2) nothing_seen _
                            d.transaction valid),
                    )
                    | inr refused ↦ inr (
                        is_in-Among d.transaction.transaction_hash invalid (
                          invalid_transactions-has v verdicts d.transaction.transaction_hash there (
                            Among-is_in d.transaction.transaction_hash
                              (hashes_of v.outcome.invalid_transactions)
                              (hashes_of-Among d.transaction v.outcome.invalid_transactions
                                refused))))
                  ],
        )
