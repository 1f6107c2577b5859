-- ===== src/ProposedBlocks/Others.antt =====
-- The documents of other transactions under the calls of
-- nightfall-optimist/src/event-handlers/block-proposed.mjs.
use nightfall.Common.{
  Among, Among-append_left, ℕ, ◌≡◌, ◌≢◌, refl, sym, ap, subst, ◌∙◌, inl, inr, List, [], ◌∷◌, Bool,
  true, false, not, ◌&&◌, Bool-cases, ◌==◌, ne→==,
}
use nightfall.BlockAssembler.Mempool.{Transaction, Pooled, Pool, is_in}
use nightfall.Submissions.Handler.{is_duplicate, has_id}
use nightfall.ProposedBlocks.Handler.{
  Stage, saving, reading, updating, returned, rejected, update_transaction, in_block, advance,
  delete_duplicates_but,
}

module _ (cs ns spared : List ℕ) where
  -- After the deletion, the documents of the mempool that are not spared share nothing.
  pub delete_duplicates_but-clears :
      (pool : Pool) (d : Pooled)
      → Among d (delete_duplicates_but cs ns spared pool)
      → is_in spared d.transaction.transaction_hash ≡ false
      → is_duplicate cs ns d ≡ false
  unfolding delete_duplicates_but
  delete_duplicates_but-clears [] d among h = absurd among
  delete_duplicates_but-clears (x ∷ xs) d among h =
      elim (Bool-cases
        (is_duplicate cs ns x && not (is_in spared x.transaction.transaction_hash))) [
          | inl t ↦ delete_duplicates_but-clears xs d (rw t at among) h
          | inr f ↦
              let among' : Among d (x ∷ delete_duplicates_but cs ns spared xs) = rw f at among in
              elim among' [
                | inl e ↦
                    alone (is_duplicate cs ns d) (is_in spared d.transaction.transaction_hash) h (
                      subst
                        (λ (y : Pooled).
                          (is_duplicate cs ns y
                            && not (is_in spared y.transaction.transaction_hash))
                          ≡ false)
                        e f)
                | inr later ↦ delete_duplicates_but-clears xs d later h
              ]
        ]
    where
      alone : (a b : Bool) → b ≡ false → (a && not b) ≡ false → a ≡ false
      alone true b g k = absurd (cc (sym (rw g at k)))
      alone false b g k = refl

  -- A document that shares nothing stays.
  pub delete_duplicates_but-leaves :
      (pool : Pool) (d : Pooled)
      → Among d pool
      → is_duplicate cs ns d ≡ false
      → Among d (delete_duplicates_but cs ns spared pool)
  unfolding delete_duplicates_but
  delete_duplicates_but-leaves [] d among f = absurd among
  delete_duplicates_but-leaves (x ∷ xs) d (inl e) f = rw (ap (is_duplicate cs ns) e ∙ f) (inl e)
  delete_duplicates_but-leaves (x ∷ xs) d (inr later) f =
      elim (Bool-cases
        (is_duplicate cs ns x && not (is_in spared x.transaction.transaction_hash))) [
          | inl t ↦ rw t (delete_duplicates_but-leaves xs d later f)
          | inr g ↦ rw g (inr (delete_duplicates_but-leaves xs d later f))
        ]

-- A document of another hash stays.
update_transaction-leaves :
    (hash n : ℕ) (pool : Pool) (d : Pooled)
    → Among d pool
    → d.transaction.transaction_hash ≢ hash
    → Among d (update_transaction hash n pool)
unfolding update_transaction
update_transaction-leaves hash n [] d among ne = absurd among
update_transaction-leaves hash n (x ∷ xs) d (inl e) ne =
    rw
      (ne→== _ _ (λ (s : x.transaction.transaction_hash ≡ hash).
        ne (sym (ap (λ (y : Pooled). y.transaction.transaction_hash) e) ∙ s)))
      (inl e)
update_transaction-leaves hash n (x ∷ xs) d (inr later) ne =
    elim (Bool-cases (x.transaction.transaction_hash == hash)) [
      | inl t ↦ rw t (inr later)
      | inr f ↦ rw f (inr (update_transaction-leaves hash n xs d later ne))
    ]

pub advance-leaves :
    (n : ℕ) (tx : Transaction) (s : Stage) (pool : Pool) (d : Pooled)
    → Among d pool
    → d.transaction.transaction_hash ≢ tx.transaction_hash
    → Among d (advance n tx s pool).1
unfolding advance
advance-leaves n tx saving pool d among ne = elim (Bool-cases (has_id tx.transaction_hash pool)) [
  | inl t ↦ rw t among
  | inr f ↦ rw f (Among-append_left d pool (in_block n tx ∷ []) among)
]
advance-leaves n tx reading pool d among ne = among
advance-leaves n tx updating pool d among ne =
    update_transaction-leaves tx.transaction_hash n pool d among ne
advance-leaves n tx returned pool d among ne = among
advance-leaves n tx rejected pool d among ne = among
