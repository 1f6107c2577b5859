-- ===== src/ProposedBlocks/Calls.antt =====
-- Every call that `blockProposedEventHandler` of
-- nightfall-optimist/src/event-handlers/block-proposed.mjs makes on the collection, in whichever order.
use nightfall.Common.{
  arith, Among, Among-append_left, Among-append_right, Among-append_either, ℕ, zero, suc, ◌-◌, ◌≤◌,
  ◌≡◌, refl, sym, ap, ◌⊎◌, inl, inr, Option, none, some, List, [], ◌∷◌, ◌++◌, true, false,
  Bool-cases,
}
use nightfall.BlockAssembler.Mempool.{Transaction, Pooled, Pool, is_in}
use nightfall.Submissions.Handler.{has_id}
use nightfall.Submissions.Values.{has_id-Among}
use nightfall.ProposedBlocks.Handler.{
  Stage, saving, reading, updating, returned, rejected, get_transaction_by_transaction_hash,
  in_block, if_unset, after_read, advance, Task, advance_at,
}
use nightfall.ProposedBlocks.Keeping.{
  InBlock, Settled, Reached, Keeps, same, Keeps-refl, Reached-kept, update_transaction-Keeps,
}
use nightfall.ProposedBlocks.Reading.{
  update_transaction-Among, update_transaction-Recorded, after_read-Reached,
}

in_block-InBlock : (n : ℕ) (tx : Transaction) → InBlock (in_block n tx)
in_block-InBlock n tx = record { number = n; has_number = refl; not_pooled = refl }

advance-Reached :
    (n : ℕ) (tx : Transaction) (s : Stage) (pool : Pool)
    → Settled pool
    → Reached pool tx.transaction_hash s
    → Reached (advance n tx s pool).1 tx.transaction_hash (advance n tx s pool).0
unfolding advance
advance-Reached n tx saving pool settled r = elim (Bool-cases (has_id tx.transaction_hash pool)) [
  | inl t ↦
      let (d, among, e) = has_id-Among tx.transaction_hash pool t in
      rw t (record { document = d; among = among; same_hash = e })
  | inr f ↦ rw f (record {
    document = in_block n tx;
    among = Among-append_right (in_block n tx) pool _ (inl refl);
    same_hash = refl;
    placed = in_block-InBlock n tx;
  })
]
advance-Reached n tx reading pool settled r =
    after_read-Reached tx.transaction_hash pool
      (get_transaction_by_transaction_hash tx.transaction_hash pool) settled r refl
advance-Reached n tx updating pool settled r =
    update_transaction-Recorded tx.transaction_hash n pool r.document r.among r.same_hash
advance-Reached n tx returned pool settled r = r
advance-Reached n tx rejected pool settled r = absurd r

advance-Keeps :
    (spared : List ℕ) (n : ℕ) (tx : Transaction) (s : Stage) (pool : Pool)
    → Keeps spared pool (advance n tx s pool).1
unfolding advance
advance-Keeps spared n tx saving pool d among h =
    elim (Bool-cases (has_id tx.transaction_hash pool)) [
      | inl t ↦ rw t (same spared d pool among)
      | inr f ↦ rw f (
          same spared d (pool ++ (in_block n tx ∷ []))
            (Among-append_left d pool (in_block n tx ∷ []) among))
    ]
advance-Keeps spared n tx reading pool d among h = same spared d pool among
advance-Keeps spared n tx updating pool d among h =
    update_transaction-Keeps spared tx.transaction_hash n pool d among h
advance-Keeps spared n tx returned pool d among h = same spared d pool among
advance-Keeps spared n tx rejected pool d among h = same spared d pool among

-- A document is from before, or of the transaction and not in the mempool.
pub advance-Among :
    (n : ℕ) (tx : Transaction) (s : Stage) (pool : Pool) (d : Pooled)
    → Among d (advance n tx s pool).1
    → Among d pool ⊎ ((d.mempool ≡ false) × (d.transaction.transaction_hash ≡ tx.transaction_hash))
unfolding advance
advance-Among n tx saving pool d among = elim (Bool-cases (has_id tx.transaction_hash pool)) [
  | inl t ↦ inl (rw t at among)
  | inr f ↦ elim (Among-append_either d pool (in_block n tx ∷ []) (rw f at among)) [
    | inl there ↦ inl there
    | inr new ↦ elim new [
      | inl s ↦ inr (
        sym (ap (λ (y : Pooled). y.mempool) s),
        sym (ap (λ (y : Pooled). y.transaction.transaction_hash) s),
      )
      | inr nowhere ↦ absurd nowhere
    ]
  ]
]
advance-Among n tx reading pool d among = inl among
advance-Among n tx updating pool d among =
    update_transaction-Among tx.transaction_hash n pool d among
advance-Among n tx returned pool d among = inl among
advance-Among n tx rejected pool d among = inl among

advance-Settled :
    (n : ℕ) (tx : Transaction) (s : Stage) (pool : Pool)
    → Settled pool
    → Settled (advance n tx s pool).1
advance-Settled n tx s pool settled d m among e = elim (advance-Among n tx s pool d among) [
  | inl there ↦ settled d m there e
  | inr (out, same_hash) ↦ out
]

-- The calls that the function of a transaction has left, at most.
abbrev pub left_of : Stage → ℕ
left_of saving = 3
left_of reading = 2
left_of updating = 1
left_of returned = 0
left_of rejected = 0

after_read-left_of : (found : Option Pooled) → left_of (after_read found) ≤ 1
after_read-left_of none = omega arith
after_read-left_of (some d) = least d.block_number_l2
  where
    least : (b : Option ℕ) → left_of (if_unset b) ≤ 1
    least none = omega arith
    least (some n) = omega arith

pub advance-left_of :
    (n : ℕ) (tx : Transaction) (s : Stage) (pool : Pool)
    → left_of (advance n tx s pool).0 ≤ left_of s - 1
unfolding advance
advance-left_of n tx saving pool = elim (Bool-cases (has_id tx.transaction_hash pool)) [
  | inl t ↦ rw t (omega arith)
  | inr f ↦ rw f (omega arith)
]
advance-left_of n tx reading pool =
    after_read-left_of (get_transaction_by_transaction_hash tx.transaction_hash pool)
advance-left_of n tx updating pool = omega arith
advance-left_of n tx returned pool = omega arith
advance-left_of n tx rejected pool = omega arith

-- Every transaction has reached its stage, and its hash is to be spared.
abbrev pub AllReached : List ℕ → Pool → List Task → Type 0
AllReached spared pool [] = Unit {0}
AllReached spared pool (t ∷ ts) =
    (is_in spared t.tx.transaction_hash ≡ true)
    × Reached pool t.tx.transaction_hash t.stage
    × AllReached spared pool ts

pub AllReached-kept :
    (spared : List ℕ) (before after : Pool) (ts : List Task)
    → Keeps spared before after
    → AllReached spared before ts
    → AllReached spared after ts
AllReached-kept spared before after [] keeps all = tt
AllReached-kept spared before after (t ∷ ts) keeps (h, r, rest) = (
  h,
  Reached-kept spared before after keeps t.tx.transaction_hash h t.stage r,
  AllReached-kept spared before after ts keeps rest,
)

pub advance_at-Keeps :
    (spared : List ℕ) (n i : ℕ) (pool : Pool) (ts : List Task)
    → Keeps spared pool (advance_at n i pool ts).0
unfolding advance_at
advance_at-Keeps spared n i pool [] = Keeps-refl spared pool
advance_at-Keeps spared n zero pool (t ∷ ts) = advance-Keeps spared n t.tx t.stage pool
advance_at-Keeps spared n (suc i) pool (t ∷ ts) = advance_at-Keeps spared n i pool ts

pub advance_at-Settled :
    (n i : ℕ) (pool : Pool) (ts : List Task) → Settled pool → Settled (advance_at n i pool ts).0
unfolding advance_at
advance_at-Settled n i pool [] settled = settled
advance_at-Settled n zero pool (t ∷ ts) settled = advance-Settled n t.tx t.stage pool settled
advance_at-Settled n (suc i) pool (t ∷ ts) settled = advance_at-Settled n i pool ts settled

pub advance_at-AllReached :
    (spared : List ℕ) (n i : ℕ) (pool : Pool) (ts : List Task)
    → Settled pool
    → AllReached spared pool ts
    → AllReached spared (advance_at n i pool ts).0 (advance_at n i pool ts).1
unfolding advance_at
advance_at-AllReached spared n i pool [] settled all = tt
advance_at-AllReached spared n zero pool (t ∷ ts) settled (h, r, rest) = (
  h,
  advance-Reached n t.tx t.stage pool settled r,
  AllReached-kept spared pool (advance n t.tx t.stage pool).1 ts
      (advance-Keeps spared n t.tx t.stage pool) rest,
)
advance_at-AllReached spared n (suc i) pool (t ∷ ts) settled (h, r, rest) = (
  h,
  Reached-kept spared pool (advance_at n i pool ts).0 (advance_at-Keeps spared n i pool ts)
      t.tx.transaction_hash h t.stage r,
  advance_at-AllReached spared n i pool ts settled rest,
)
