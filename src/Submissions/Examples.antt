-- ===== src/Submissions/Examples.antt =====
-- Tests of the model of nightfall-optimist/src/event-handlers/transaction-submitted.mjs on a mempool of
-- one transaction, and the theorem about it there.
use nightfall.Common.{
  Among, ◌≡◌, refl, sym, ap, ◌∙◌, inl, inr, some, [], ◌∷◌, true, false, difference,
}
use nightfall.BlockAssembler.Mempool.{Transaction, Pooled}
use nightfall.BlockChecks.Examples.{first_block, block_of}
use nightfall.TransactionChecks.Documents.{exceeds, text, number, World}
use nightfall.TransactionChecks.Free.{BlocksStored}
use nightfall.TransactionChecks.Caching.{Coherent}
use nightfall.TransactionChecks.Examples.{
  tx_of, in_block_zero, world, verifier, no_caches, no_caches-Coherent,
}
use nightfall.Submissions.Handler.{new_document, Escrow, transaction_submitted_event_handler}
use nightfall.Submissions.Mempool.{
  NoConflicts, Submitted, transaction_submitted_event_handler-Submitted,
}

abbrev cheap : Pooled
cheap = new_document (tx_of 2 (4 ∷ 0 ∷ []) (7 ∷ 0 ∷ []))

abbrev dear : Transaction
dear = tx_of 3 (4 ∷ 0 ∷ []) (9 ∷ 0 ∷ [])

abbrev waiting : World
waiting = record world { pool = in_block_zero ∷ cheap ∷ [] }

abbrev no_escrow : Escrow
no_escrow = record { is_escrow_required = λ h. false; is_escrowed = λ c. false }

-- The new transaction spends what one that pays less spends, and takes its place.
replaces_test :
    (transaction_submitted_event_handler verifier waiting no_escrow dear no_caches).0
    ≡ in_block_zero ∷ new_document dear ∷ []
unfolding transaction_submitted_event_handler difference
replaces_test = refl

-- One that pays less is ignored.
ignored_test :
    (transaction_submitted_event_handler verifier waiting no_escrow
      (tx_of 1 (4 ∷ 0 ∷ []) (9 ∷ []))
      no_caches).0
    ≡ waiting.pool
unfolding transaction_submitted_event_handler difference
ignored_test = refl

-- A fee as text and one as a Number do not exceed one another, however different they are.
exceeds_test : (exceeds (number 5) (text 1) ≡ false) × (exceeds (text 5) (number 1) ≡ false)
exceeds_test = (refl, refl)

waiting-BlocksStored : BlocksStored waiting
waiting-BlocksStored d n (inl e) is_n =
    (first_block, ap block_of (zero_of (ap (λ (x : Pooled). x.block_number_l2) e ∙ is_n)))
  where
    zero_of : some 0 ≡ some n → n ≡ 0
    zero_of h = cc
waiting-BlocksStored d n (inr (inl e)) is_n =
    absurd (cc (ap (λ (x : Pooled). x.block_number_l2) e ∙ is_n))
waiting-BlocksStored d n (inr (inr nowhere)) is_n = absurd nowhere

-- Only one document is in the mempool.
the_one : (d : Pooled) → Among d waiting.pool → d.mempool ≡ true → cheap ≡ d
the_one d (inl e) pooled = absurd (cc (ap (λ (x : Pooled). x.mempool) e ∙ pooled))
the_one d (inr (inl e)) pooled = e
the_one d (inr (inr nowhere)) pooled = absurd nowhere

waiting-NoConflicts : NoConflicts waiting.pool
waiting-NoConflicts d e kind v p q pooled pooled' ne r s =
    sym (the_one d p pooled) ∙ the_one e q pooled'

waiting-Coherent : Coherent waiting no_caches
waiting-Coherent = record { keys = no_caches-Coherent.keys; fees = no_caches-Coherent.fees }

transaction_submitted_event_handler-Submitted_example :
    Submitted waiting dear
      (transaction_submitted_event_handler verifier waiting no_escrow dear no_caches).0
transaction_submitted_event_handler-Submitted_example =
    transaction_submitted_event_handler-Submitted verifier waiting no_escrow dear no_caches
      waiting-BlocksStored waiting-Coherent waiting-NoConflicts
