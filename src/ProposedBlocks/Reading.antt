-- ===== src/ProposedBlocks/Reading.antt =====
-- What the single calls of `blockProposedEventHandler` of
-- nightfall-optimist/src/event-handlers/block-proposed.mjs read, and which documents they leave.
use nightfall.Common.{
  Among, ℕ, ◌≡◌, refl, sym, ap, ◌∙◌, ◌⊎◌, inl, inr, Option, none, some, List, [], ◌∷◌, false, not,
  ◌&&◌, Bool-cases, ◌==◌, ==→eq, ==→ne, eq→==,
}
use nightfall.BlockAssembler.Mempool.{Pooled, Pool, is_in}
use nightfall.Submissions.Handler.{is_duplicate}
use nightfall.ProposedBlocks.Handler.{
  get_transaction_by_transaction_hash, update_transaction, if_unset, after_read,
  delete_duplicates_but,
}
use nightfall.ProposedBlocks.Keeping.{Settled, Present, Recorded, Reached}

-- Where the documents of an update come from.
pub update_transaction-Among :
    (hash n : ℕ) (pool : Pool) (d : Pooled)
    → Among d (update_transaction hash n pool)
    → Among d pool ⊎ ((d.mempool ≡ false) × (d.transaction.transaction_hash ≡ hash))
unfolding update_transaction
update_transaction-Among hash n [] d among = absurd among
update_transaction-Among hash n (x ∷ xs) d among =
    elim (Bool-cases (x.transaction.transaction_hash == hash)) [
      | inl t ↦
          let among' : Among d (record x { mempool = false; block_number_l2 = some n } ∷ xs) =
            rw t at among in
          elim among' [
            | inl e ↦ inr (
              sym (ap (λ (y : Pooled). y.mempool) e),
              sym (ap (λ (y : Pooled). y.transaction.transaction_hash) e) ∙ ==→eq _ _ t,
            )
            | inr later ↦ inl (inr later)
          ]
      | inr f ↦
          let among' : Among d (x ∷ update_transaction hash n xs) = rw f at among in
          elim among' [
            | inl e ↦ inl (inl e)
            | inr later ↦ elim (update_transaction-Among hash n xs d later) [
              | inl there ↦ inl (inr there)
              | inr out ↦ inr out
            ]
          ]
    ]

pub delete_duplicates_but-Among :
    (cs ns spared : List ℕ) (pool : Pool) (d : Pooled)
    → Among d (delete_duplicates_but cs ns spared pool)
    → Among d pool
unfolding delete_duplicates_but
delete_duplicates_but-Among cs ns spared [] d among = absurd among
delete_duplicates_but-Among cs ns spared (x ∷ xs) d among =
    elim (Bool-cases (is_duplicate cs ns x && not (is_in spared x.transaction.transaction_hash))) [
      | inl t ↦ inr (delete_duplicates_but-Among cs ns spared xs d (rw t at among))
      | inr f ↦
          let among' : Among d (x ∷ delete_duplicates_but cs ns spared xs) = rw f at among in
          elim among' [
            | inl e ↦ inl e
            | inr later ↦ inr (delete_duplicates_but-Among cs ns spared xs d later)
          ]
    ]

pub update_transaction-Recorded :
    (hash n : ℕ) (pool : Pool) (d : Pooled)
    → Among d pool
    → d.transaction.transaction_hash ≡ hash
    → Recorded hash (update_transaction hash n pool)
unfolding update_transaction
update_transaction-Recorded hash n [] d among e = absurd among
update_transaction-Recorded hash n (x ∷ xs) d (inl s) e =
    let x_hash : x.transaction.transaction_hash ≡ hash =
      ap (λ (y : Pooled). y.transaction.transaction_hash) s ∙ e in
    rw (eq→== _ _ x_hash) (record {
      document = record x { mempool = false; block_number_l2 = some n };
      among = inl refl;
      same_hash = x_hash;
      placed = record { number = n; has_number = refl; not_pooled = refl };
    })
update_transaction-Recorded hash n (x ∷ xs) d (inr later) e =
    let r = update_transaction-Recorded hash n xs d later e in
    elim (Bool-cases (x.transaction.transaction_hash == hash)) [
      | inl t ↦ rw t (record {
        document = record x { mempool = false; block_number_l2 = some n };
        among = inl refl;
        same_hash = ==→eq _ _ t;
        placed = record { number = n; has_number = refl; not_pooled = refl };
      })
      | inr f ↦ rw f (record {
        document = r.document;
        among = inr r.among;
        same_hash = r.same_hash;
        placed = r.placed;
      })
    ]

-- The document that is found, or none.
get_transaction-finds :
    (hash : ℕ) (pool : Pool) (d : Pooled)
    → get_transaction_by_transaction_hash hash pool ≡ some d
    → Among d pool × (d.transaction.transaction_hash ≡ hash)
unfolding get_transaction_by_transaction_hash
get_transaction-finds hash [] d h = absurd (cc h)
get_transaction-finds hash (x ∷ xs) d h =
    elim (Bool-cases (x.transaction.transaction_hash == hash)) [
      | inl t ↦
          let e : some x ≡ some d = rw t at h in
          let s : x ≡ d = cc e in
          (inl s, ap (λ (y : Pooled). y.transaction.transaction_hash) (sym s) ∙ ==→eq _ _ t)
      | inr f ↦ let (there, s) = get_transaction-finds hash xs d (rw f at h) in (inr there, s)
    ]

get_transaction-misses :
    (hash : ℕ) (pool : Pool) (d : Pooled)
    → get_transaction_by_transaction_hash hash pool ≡ none
    → Among d pool
    → d.transaction.transaction_hash ≡ hash
    → ⊥
unfolding get_transaction_by_transaction_hash
get_transaction-misses hash [] d h among e = among
get_transaction-misses hash (x ∷ xs) d h among e =
    elim (Bool-cases (x.transaction.transaction_hash == hash)) [
      | inl t ↦ let no : some x ≡ none = rw t at h in cc no
      | inr f ↦ elim among [
        | inl s ↦ ==→ne _ _ f (ap (λ (y : Pooled). y.transaction.transaction_hash) s ∙ e)
        | inr later ↦ get_transaction-misses hash xs d (rw f at h) later e
      ]
    ]

if_unset-Reached :
    (hash : ℕ) (pool : Pool) (d : Pooled) (b : Option ℕ)
    → Settled pool
    → Among d pool
    → d.transaction.transaction_hash ≡ hash
    → d.block_number_l2 ≡ b
    → Reached pool hash (if_unset b)
if_unset-Reached hash pool d none settled among s e = record {
  document = d;
  among = among;
  same_hash = s;
}
if_unset-Reached hash pool d (some n) settled among s e = record {
  document = d;
  among = among;
  same_hash = s;
  placed = record { number = n; has_number = e; not_pooled = settled d n among e };
}

pub after_read-Reached :
    (hash : ℕ) (pool : Pool) (found : Option Pooled)
    → Settled pool
    → Present hash pool
    → get_transaction_by_transaction_hash hash pool ≡ found
    → Reached pool hash (after_read found)
after_read-Reached hash pool none settled p e =
    absurd (get_transaction-misses hash pool p.document e p.among p.same_hash)
after_read-Reached hash pool (some d) settled p e =
    let (among, s) = get_transaction-finds hash pool d e in
    if_unset-Reached hash pool d d.block_number_l2 settled among s refl
