-- ===== src/Submissions/Mempool.antt =====
-- What `transactionSubmittedEventHandler` of
-- nightfall-optimist/src/event-handlers/transaction-submitted.mjs does to the mempool.
use nightfall.Common.{
  Among, Among-append_left, Among-append_right, Among-append_either, ℕ, ◌≡◌, ◌≢◌, refl, sym, subst,
  ◌∙◌, ◌⊎◌, inl, inr, [], ◌∷◌, true, false, not, ◌&&◌, Bool-cases, Result, ok, throws,
}
use nightfall.BlockAssembler.Mempool.{Transaction, Pooled, Pool}
use nightfall.BlockChecks.Duplicates.{nonzero}
use nightfall.TransactionChecks.Documents.{exceeds, World, Kind, values, CheckError}
use nightfall.TransactionChecks.Proofs.{Caches, Verifier}
use nightfall.TransactionChecks.Check.{check_transaction}
use nightfall.TransactionChecks.Free.{BlocksStored}
use nightfall.TransactionChecks.Caching.{Coherent}
use nightfall.TransactionChecks.Verdicts.{Accepted, check_transaction-Accepted}
use nightfall.Submissions.Handler.{
  delete_duplicates, has_id, new_document, save_transaction, Escrow, first_of, submitted, if_valid,
  transaction_submitted_event_handler,
}
use nightfall.Submissions.Values.{
  duplicates, is_duplicate-shares, Shares, is_duplicate-Shares, delete_duplicates-Among,
  delete_duplicates-keeps, has_id-Among,
}

-- No two documents of the mempool share a commitment or a nullifier other than zero.
abbrev pub NoConflicts : Pool → Type 0
NoConflicts pool =
    (d e : Pooled) (kind : Kind) (v : ℕ)
    → Among d pool
    → Among e pool
    → d.mempool ≡ true
    → e.mempool ≡ true
    → v ≢ 0
    → Among v (values kind d.transaction)
    → Among v (values kind e.transaction)
    → d ≡ e

-- A document leaves only for a transaction whose fee its own does not exceed, and that the collection
-- then has.
abbrev pub LeavesFor : World → Transaction → Pool → Pooled → Type 0
LeavesFor w tx after d =
    Among d after
    ⊎ ((d.mempool ≡ true)
        × Shares tx d
        × (exceeds (w.details d.transaction).fee (w.details tx).fee ≡ false)
        × (e : Pooled) × Among e after
        × (e.transaction.transaction_hash ≡ tx.transaction_hash))

-- What a submission leaves.
pub record Submitted (w : World) (tx : Transaction) (after : Pool) : Type 0 where
  pub no_conflicts : NoConflicts after
  pub leaves : (d : Pooled) → Among d w.pool → LeavesFor w tx after d

module _ (tx : Transaction) where
  abbrev survivors : Pool → Pool
  survivors = delete_duplicates (nonzero tx.commitments) (nonzero tx.nullifiers)

  survives :
      (pool : Pool) (d : Pooled)
      → Among d (survivors pool)
      → Among d pool × (duplicates tx d ≡ false)
  survives = delete_duplicates-Among (nonzero tx.commitments) (nonzero tx.nullifiers)

  -- A survivor does not conflict with the new document.
  apart :
      (pool : Pool) (d : Pooled) (kind : Kind) (v : ℕ)
      → Among d (survivors pool)
      → d.mempool ≡ true
      → v ≢ 0
      → Among v (values kind tx)
      → Among v (values kind d.transaction)
      → ⊥
  apart pool d kind v among pooled ne p q =
      let (there, other) = survives pool d among in
      cc (sym (is_duplicate-shares tx d kind v ne p q pooled) ∙ other)

  saved-NoConflicts :
      (pool : Pool) → NoConflicts pool → NoConflicts (save_transaction tx (survivors pool))
  unfolding save_transaction
  saved-NoConflicts pool free d e kind v p q pooled pooled' ne r s =
      elim (Bool-cases (has_id tx.transaction_hash (survivors pool))) [
        | inl t ↦ old_ones (rw t at p) (rw t at q)
        | inr f ↦ elim (Among-append_either d (survivors pool) (new_document tx ∷ []) (rw f at p)) [
          | inl p' ↦
              elim (Among-append_either e (survivors pool) (new_document tx ∷ []) (rw f at q)) [
                | inl q' ↦ old_ones p' q'
                | inr new ↦ absurd (apart pool d kind v p' pooled ne (in_new e new s) r)
              ]
          | inr new ↦
              elim (Among-append_either e (survivors pool) (new_document tx ∷ []) (rw f at q)) [
                | inl q' ↦ absurd (apart pool e kind v q' pooled' ne (in_new d new r) s)
                | inr new' ↦ sym (is_new d new) ∙ is_new e new'
              ]
        ]
      ]
    where
      old_ones : Among d (survivors pool) → Among e (survivors pool) → d ≡ e
      old_ones p q =
          free d e kind v (survives pool d p).0 (survives pool e q).0 pooled pooled' ne r s

      is_new : (x : Pooled) → Among x (new_document tx ∷ []) → new_document tx ≡ x
      is_new x (inl same) = same
      is_new x (inr nowhere) = absurd nowhere

      in_new :
          (x : Pooled)
          → Among x (new_document tx ∷ [])
          → Among v (values kind x.transaction)
          → Among v (values kind tx)
      in_new x new holds =
          subst (λ (y : Pooled). Among v (values kind y.transaction)) (sym (is_new x new)) holds

  -- The survivors are kept, and the transaction is there.
  saved-keeps : (pool : Pool) (d : Pooled) → Among d pool → Among d (save_transaction tx pool)
  unfolding save_transaction
  saved-keeps pool d among = elim (Bool-cases (has_id tx.transaction_hash pool)) [
    | inl t ↦ rw t among
    | inr f ↦ rw f (Among-append_left d pool (new_document tx ∷ []) among)
  ]

  saved-has :
      (pool : Pool)
      → (e : Pooled) × Among e (save_transaction tx pool)
        × (e.transaction.transaction_hash ≡ tx.transaction_hash)
  unfolding save_transaction
  saved-has pool = elim (Bool-cases (has_id tx.transaction_hash pool)) [
    | inl t ↦ rw t (has_id-Among tx.transaction_hash pool t)
    | inr f ↦ rw f (new_document tx, Among-append_right (new_document tx) pool _ (inl refl), refl)
  ]

  if_valid-NoConflicts :
      (pool : Pool) (checked : Result CheckError (Unit {0}) × Caches)
      → NoConflicts pool
      → NoConflicts (if_valid pool tx checked).0
  if_valid-NoConflicts pool (throws e, caches) free = free
  if_valid-NoConflicts pool (ok x, caches) free = saved-NoConflicts pool free

  if_valid-LeavesFor :
      (v : Verifier) (w : World) (checked : Result CheckError (Unit {0}) × Caches)
      → (checked.0 ≡ ok tt → Accepted v w tx submitted)
      → (d : Pooled) → Among d w.pool
      → LeavesFor w tx (if_valid w.pool tx checked).0 d
  if_valid-LeavesFor v w (throws e, caches) accepted d among = inl among
  if_valid-LeavesFor v w (ok x, caches) accepted d among = elim (Bool-cases (duplicates tx d)) [
    | inr f ↦ inl (
        saved-keeps (survivors w.pool) d (
          delete_duplicates-keeps (nonzero tx.commitments) (nonzero tx.nullifiers) w.pool d among
            f))
    | inl t ↦
        let (pooled, (kind, value, ne, p, q)) = is_duplicate-Shares tx d t in
        let (e, there, same) = saved-has (survivors w.pool) in
        inr (
          pooled,
          (kind, value, ne, p, q),
          ((accepted refl).free kind value p ne).in_mempool refl d among pooled q,
          e,
          there,
          same,
        )
  ]

-- If no two documents of the mempool share a commitment or a nullifier other than zero, every block
-- with a transaction of the collection is stored, and the caches hold what the contracts say, then
-- after `transactionSubmittedEventHandler` no two documents of the mempool share one; and a
-- document of the collection leaves it only if it is in the mempool, shares such a value with the
-- new transaction and has no fee that exceeds the new one's, as the database compares them (text and
-- Number never do), and the collection then has a document with the new transaction's hash.
pub transaction_submitted_event_handler-Submitted :
    (v : Verifier) (w : World) (escrow : Escrow) (tx : Transaction) (caches : Caches)
    → BlocksStored w
    → Coherent w caches
    → NoConflicts w.pool
    → Submitted w tx (transaction_submitted_event_handler v w escrow tx caches).0
unfolding transaction_submitted_event_handler
transaction_submitted_event_handler-Submitted v w escrow tx caches stored coherent free =
    elim (Bool-cases (
      escrow.is_escrow_required (w.details tx).circuit_hash
      && not (escrow.is_escrowed (first_of tx.commitments)))) [
        | inl t ↦ rw t (record { no_conflicts = free; leaves = λ d among. inl among })
        | inr f ↦ rw f (record {
          no_conflicts =
              if_valid-NoConflicts tx w.pool (check_transaction v w submitted tx caches) free;
          leaves =
              if_valid-LeavesFor tx v w (check_transaction v w submitted tx caches)
                (check_transaction-Accepted v w submitted tx caches stored coherent);
        })
      ]
