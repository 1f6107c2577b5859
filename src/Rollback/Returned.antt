-- ===== src/Rollback/Returned.antt =====
-- What the updates of `rollbackEventHandler` in nightfall-optimist/src/event-handlers/rollback.mjs do
-- to the collections.
use nightfall.Common.{
  none, ◌⊎◌, Among, ℕ, ◌≡◌, refl, sym, ap, subst, ◌∙◌, inl, inr, some, List, [], ◌∷◌, Bool, true,
  false, ◌&&◌, Bool-cases, eq→==,
}
use nightfall.BlockAssembler.Mempool.{Pooled, Pool, is_in, return_to}
use nightfall.Rollback.Handler.{is_at, delete_transactions_by_transaction_hashes}

-- A document that is in a block after an update was there before, and was not returned.
pub return_to-at :
    (hashes : List ℕ) (number : ℕ) (d : Pooled) (m : ℕ)
    → (return_to hashes number d).block_number_l2 ≡ some m
    → (return_to hashes number d ≡ d)
      × ((is_in hashes d.transaction.transaction_hash && is_at number d) ≡ false)
return_to-at hashes number d m h =
    elim (Bool-cases (is_in hashes d.transaction.transaction_hash && is_at number d)) [
      | inl t ↦ let g = rw t at h in absurd (cc g)
      | inr f ↦ (rw f refl, f)
    ]

pub return_to-elsewhere :
    (hashes : List ℕ) (number : ℕ) (d : Pooled)
    → is_at number d ≡ false
    → return_to hashes number d ≡ d
return_to-elsewhere hashes number d h =
    elim (Bool-cases (is_in hashes d.transaction.transaction_hash && is_at number d)) [
      | inl t ↦
          let here : is_at number d ≡ true =
            and_right (is_in hashes d.transaction.transaction_hash) (is_at number d) t in
          absurd (cc (sym here ∙ h))
      | inr f ↦ rw f refl
    ]
  where
    and_right : (a b : Bool) → (a && b) ≡ true → b ≡ true
    and_right true b h = h
    and_right false b h = absurd (cc h)

pub return_to-transaction :
    (hashes : List ℕ) (number : ℕ) (d : Pooled)
    → (return_to hashes number d).transaction ≡ d.transaction
return_to-transaction hashes number d =
    elim (Bool-cases (is_in hashes d.transaction.transaction_hash && is_at number d)) [
      | inl t ↦ rw t refl
      | inr f ↦ rw f refl
    ]

pub is_at_lem : (d : Pooled) (m : ℕ) → d.block_number_l2 ≡ some m → is_at m d ≡ true
is_at_lem d m h = rw h (eq→== m m refl)

-- A returned document is as it is now, or is in the mempool.
pub return_to-either :
    (hashes : List ℕ) (number : ℕ) (d : Pooled)
    → (return_to hashes number d ≡ d)
      ⊎ (return_to hashes number d ≡ record d { mempool = true; block_number_l2 = none })
return_to-either hashes number d =
    elim (Bool-cases (is_in hashes d.transaction.transaction_hash && is_at number d)) [
      | inl t ↦ inr (rw t refl)
      | inr f ↦ inl (rw f refl)
    ]

pub return_to-returns :
    (hashes : List ℕ) (number : ℕ) (d : Pooled)
    → is_in hashes d.transaction.transaction_hash ≡ true
    → d.block_number_l2 ≡ some number
    → return_to hashes number d ≡ record d { mempool = true; block_number_l2 = none }
return_to-returns hashes number d t e = rw (t, is_at_lem d number e) refl

module _ (hashes : List ℕ) where
  pub delete_transactions-Among :
      (pool : Pool) (d : Pooled)
      → Among d (delete_transactions_by_transaction_hashes hashes pool)
      → Among d pool × (is_in hashes d.transaction.transaction_hash ≡ false)
  unfolding delete_transactions_by_transaction_hashes
  delete_transactions-Among [] d among = absurd among
  delete_transactions-Among (x ∷ xs) d among =
      elim (Bool-cases (is_in hashes x.transaction.transaction_hash)) [
        | inl t ↦ let (there, f) = delete_transactions-Among xs d (rw t at among) in (inr there, f)
        | inr f ↦
            let among' : Among d (x ∷ delete_transactions_by_transaction_hashes hashes xs) =
              rw f at among in
            elim among' [
              | inl e ↦ (
                inl e,
                subst (λ (y : Pooled). is_in hashes y.transaction.transaction_hash ≡ false) e f,
              )
              | inr later ↦ let (there, g) = delete_transactions-Among xs d later in (inr there, g)
            ]
      ]

  pub delete_transactions-keeps :
      (pool : Pool) (d : Pooled)
      → Among d pool
      → is_in hashes d.transaction.transaction_hash ≡ false
      → Among d (delete_transactions_by_transaction_hashes hashes pool)
  unfolding delete_transactions_by_transaction_hashes
  delete_transactions-keeps [] d among f = absurd among
  delete_transactions-keeps (x ∷ xs) d (inl e) f =
      rw (ap (λ (y : Pooled). is_in hashes y.transaction.transaction_hash) e ∙ f) (inl e)
  delete_transactions-keeps (x ∷ xs) d (inr later) f =
      elim (Bool-cases (is_in hashes x.transaction.transaction_hash)) [
        | inl t ↦ rw t (delete_transactions-keeps xs d later f)
        | inr g ↦ rw g (inr (delete_transactions-keeps xs d later f))
      ]
