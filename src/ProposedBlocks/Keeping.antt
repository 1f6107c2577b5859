-- ===== src/ProposedBlocks/Keeping.antt =====
-- What single calls of `blockProposedEventHandler` of
-- nightfall-optimist/src/event-handlers/block-proposed.mjs keep of the documents they spare.
use nightfall.Common.{
  Among, ℕ, ◌≡◌, refl, ap, ◌∙◌, inl, inr, some, List, [], ◌∷◌, Bool, true, false, not, ◌&&◌,
  Bool-cases, ◌==◌,
}
use nightfall.BlockAssembler.Mempool.{Pooled, Pool, is_in}
use nightfall.Submissions.Handler.{is_duplicate}
use nightfall.ProposedBlocks.Handler.{
  Stage, saving, reading, updating, returned, rejected, update_transaction, delete_duplicates_but,
}

-- The document is in a block, and so not in the mempool.
pub record InBlock (d : Pooled) : Type 0 where
  pub number : ℕ
  pub has_number : d.block_number_l2 ≡ some number
  pub not_pooled : d.mempool ≡ false

-- A transaction that is in a block is not in the mempool.
abbrev pub Settled : Pool → Type 0
Settled pool = (d : Pooled) (n : ℕ) → Among d pool → d.block_number_l2 ≡ some n → d.mempool ≡ false

-- There is a document with the hash.
pub record Present (hash : ℕ) (pool : Pool) : Type 0 where
  pub document : Pooled
  pub among : Among document pool
  pub same_hash : document.transaction.transaction_hash ≡ hash

-- One of them is in a block.
pub record Recorded (hash : ℕ) (pool : Pool) : Type 0 where
  pub document : Pooled
  pub among : Among document pool
  pub same_hash : document.transaction.transaction_hash ≡ hash
  pub placed : InBlock document

-- What holds of a transaction when its function has got to a stage.
abbrev pub Reached : Pool → ℕ → Stage → Type 0
Reached pool hash saving = Unit {0}
Reached pool hash reading = Present hash pool
Reached pool hash updating = Present hash pool
Reached pool hash returned = Recorded hash pool
Reached pool hash rejected = ⊥

-- What a call keeps of the documents whose hash is to be spared.
pub record Kept (spared : List ℕ) (d : Pooled) (after : Pool) : Type 0 where
  pub document : Pooled
  pub among : Among document after
  pub same_hash : document.transaction.transaction_hash ≡ d.transaction.transaction_hash
  pub stays : InBlock d → InBlock document

abbrev pub Keeps : List ℕ → Pool → Pool → Type 0
Keeps spared before after =
    (d : Pooled)
    → Among d before
    → is_in spared d.transaction.transaction_hash ≡ true
    → Kept spared d after

module _ (spared : List ℕ) where
  pub same : (d : Pooled) (after : Pool) → Among d after → Kept spared d after
  same d after among = record { document = d; among = among; same_hash = refl; stays = λ b. b }

  pub Keeps-refl : (pool : Pool) → Keeps spared pool pool
  Keeps-refl pool d among h = same d pool among

  module _ (before after : Pool) (keeps : Keeps spared before after) (hash : ℕ)
      (h : is_in spared hash ≡ true) where
    kept :
        (d : Pooled) → Among d before → d.transaction.transaction_hash ≡ hash → Kept spared d after
    kept d among e = keeps d among (ap (is_in spared) e ∙ h)

    Present-kept : Present hash before → Present hash after
    Present-kept p =
        let k = kept p.document p.among p.same_hash in
        record { document = k.document; among = k.among; same_hash = k.same_hash ∙ p.same_hash }

    Recorded-kept : Recorded hash before → Recorded hash after
    Recorded-kept p =
        let k = kept p.document p.among p.same_hash in
        record {
          document = k.document;
          among = k.among;
          same_hash = k.same_hash ∙ p.same_hash;
          placed = k.stays p.placed;
        }

    pub Reached-kept : (s : Stage) → Reached before hash s → Reached after hash s
    Reached-kept saving r = tt
    Reached-kept reading r = Present-kept r
    Reached-kept updating r = Present-kept r
    Reached-kept returned r = Recorded-kept r
    Reached-kept rejected r = absurd r

  -- The deletion spares the hashes.
  pub delete_duplicates_but-Keeps :
      (commitments nullifiers : List ℕ) (pool : Pool)
      → Keeps spared pool (delete_duplicates_but commitments nullifiers spared pool)
  unfolding delete_duplicates_but
  delete_duplicates_but-Keeps cs ns [] d among h = absurd among
  delete_duplicates_but-Keeps cs ns (x ∷ xs) d (inl e) h =
      rw
        (spared_one (is_duplicate cs ns x) (is_in spared x.transaction.transaction_hash)
          (ap (λ (y : Pooled). is_in spared y.transaction.transaction_hash) e ∙ h))
        (same d (x ∷ delete_duplicates_but cs ns spared xs) (inl e))
    where
      spared_one : (a b : Bool) → b ≡ true → (a && not b) ≡ false
      spared_one true b t = rw t refl
      spared_one false b t = refl
  delete_duplicates_but-Keeps cs ns (x ∷ xs) d (inr later) h =
      let k = delete_duplicates_but-Keeps cs ns xs d later h in
      elim (Bool-cases
        (is_duplicate cs ns x && not (is_in spared x.transaction.transaction_hash))) [
          | inl t ↦ rw t k
          | inr f ↦ rw f (record {
            document = k.document;
            among = inr k.among;
            same_hash = k.same_hash;
            stays = k.stays;
          })
        ]

  pub update_transaction-Keeps :
      (hash n : ℕ) (pool : Pool) → Keeps spared pool (update_transaction hash n pool)
  unfolding update_transaction
  update_transaction-Keeps hash n [] d among h = absurd among
  update_transaction-Keeps hash n (x ∷ xs) d (inl e) h =
      elim (Bool-cases (x.transaction.transaction_hash == hash)) [
        | inl t ↦ rw t (record {
          document = record x { mempool = false; block_number_l2 = some n };
          among = inl refl;
          same_hash = ap (λ (y : Pooled). y.transaction.transaction_hash) e;
          stays = λ b. record { number = n; has_number = refl; not_pooled = refl };
        })
        | inr f ↦ rw f (same d (x ∷ update_transaction hash n xs) (inl e))
      ]
  update_transaction-Keeps hash n (x ∷ xs) d (inr later) h =
      let k = update_transaction-Keeps hash n xs d later h in
      elim (Bool-cases (x.transaction.transaction_hash == hash)) [
        | inl t ↦
            rw t (same d (record x { mempool = false; block_number_l2 = some n } ∷ xs) (inr later))
        | inr f ↦ rw f (record {
          document = k.document;
          among = inr k.among;
          same_hash = k.same_hash;
          stays = k.stays;
        })
      ]
