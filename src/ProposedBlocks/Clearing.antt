-- ===== src/ProposedBlocks/Clearing.antt =====
-- What a whole order of calls keeps of the collection: `blockProposedEventHandler` of
-- nightfall-optimist/src/event-handlers/block-proposed.mjs makes them.
use nightfall.Common.{
  Among, ℕ, zero, suc, ◌≡◌, refl, sym, ap, ◌∙◌, ◌⊎◌, inl, inr, List, [], ◌∷◌, Bool, true, false,
  ◌||◌, ◌&&◌,
}
use nightfall.BlockAssembler.Mempool.{Transaction, Pooled, Pool, is_in}
use nightfall.BlockAssembler.Removal.{hashes_of}
use nightfall.Rollback.Validate.{any_in}
use nightfall.Submissions.Handler.{is_duplicate}
use nightfall.ProposedBlocks.Handler.{
  Task, Progress, Call, call_of, deletion, nonzero_of, advance_at, perform, perform_all,
}
use nightfall.ProposedBlocks.Reading.{delete_duplicates_but-Among}
use nightfall.ProposedBlocks.Others.{
  advance-leaves, delete_duplicates_but-clears, delete_duplicates_but-leaves,
}
use nightfall.ProposedBlocks.Unique.{
  UniqueHashes, advance-UniqueHashes, delete_duplicates_but-UniqueHashes,
}
use nightfall.ProposedBlocks.Calls.{advance-Among, AllReached}
use nightfall.ProposedBlocks.Recorded.{Underway, perform-Underway}

module _ (hashes : List ℕ) (n : ℕ) where
  advance_at-Among :
      (i : ℕ) (pool : Pool) (ts : List Task) (d : Pooled)
      → AllReached hashes pool ts
      → Among d (advance_at n i pool ts).0
      → Among d pool ⊎ ((d.mempool ≡ false) × (is_in hashes d.transaction.transaction_hash ≡ true))
  unfolding advance_at
  advance_at-Among i pool [] d all among = inl among
  advance_at-Among zero pool (t ∷ ts) d (h, r, rest) among =
      elim (advance-Among n t.tx t.stage pool d among) [
        | inl there ↦ inl there
        | inr (out, e) ↦ inr (out, ap (is_in hashes) e ∙ h)
      ]
  advance_at-Among (suc i) pool (t ∷ ts) d (h, r, rest) among =
      advance_at-Among i pool ts d rest among

  advance_at-leaves :
      (i : ℕ) (pool : Pool) (ts : List Task) (d : Pooled)
      → AllReached hashes pool ts
      → Among d pool
      → is_in hashes d.transaction.transaction_hash ≡ false
      → Among d (advance_at n i pool ts).0
  unfolding advance_at
  advance_at-leaves i pool [] d all among f = among
  advance_at-leaves zero pool (t ∷ ts) d (h, r, rest) among f =
      advance-leaves n t.tx t.stage pool d among (λ e. cc (sym (ap (is_in hashes) e ∙ h) ∙ f))
  advance_at-leaves (suc i) pool (t ∷ ts) d (h, r, rest) among f =
      advance_at-leaves i pool ts d rest among f

  advance_at-UniqueHashes :
      (i : ℕ) (pool : Pool) (ts : List Task)
      → UniqueHashes pool
      → UniqueHashes (advance_at n i pool ts).0
  unfolding advance_at
  advance_at-UniqueHashes i pool [] u = u
  advance_at-UniqueHashes zero pool (t ∷ ts) u = advance-UniqueHashes n t.tx t.stage pool u
  advance_at-UniqueHashes (suc i) pool (t ∷ ts) u = advance_at-UniqueHashes i pool ts u

-- Whether a schedule has the deletion.
abbrev pub deletes : List Call → Bool
deletes [] = false
deletes (call_of i ∷ cs) = deletes cs
deletes (deletion ∷ cs) = true

-- A document of the mempool with a commitment or a nullifier of the block.
abbrev pub rivals : List Transaction → Pooled → Bool
rivals txs = is_duplicate (nonzero_of (λ t. t.commitments) txs) (nonzero_of (λ t. t.nullifiers) txs)

module _ (n : ℕ) (txs : List Transaction) where
  abbrev pub hashes : List ℕ
  hashes = hashes_of txs

  -- The only rivals are the transactions of the block themselves.
  abbrev pub Cleared : Pool → Type 0
  Cleared pool =
      (d : Pooled)
      → Among d pool
      → is_in hashes d.transaction.transaction_hash ≡ false
      → rivals txs d ≡ false

  pub out_of_mempool : (d : Pooled) → d.mempool ≡ false → rivals txs d ≡ false
  unfolding is_duplicate
  out_of_mempool d f =
      no
        (any_in (nonzero_of (λ t. t.commitments) txs) d.transaction.commitments
          || any_in (nonzero_of (λ t. t.nullifiers) txs) d.transaction.nullifiers)
        d.mempool f
    where
      no : (a b : Bool) → b ≡ false → (a && b) ≡ false
      no true b h = h
      no false b h = refl

  perform-Cleared :
      (c : Call) (s : Progress)
      → Underway n txs hashes s
      → Cleared s.pool
      → Cleared (perform n txs hashes c s).pool
  unfolding perform
  perform-Cleared (call_of i) s u clear d among f =
      elim (advance_at-Among hashes n i s.pool s.tasks d u.reached among) [
        | inl there ↦ clear d there f
        | inr (out, t) ↦ out_of_mempool d out
      ]
  perform-Cleared deletion s u clear d among f =
      clear d (delete_duplicates_but-Among _ _ hashes s.pool d among) f

  deletion-Cleared : (s : Progress) → Cleared (perform n txs hashes deletion s).pool
  unfolding perform
  deletion-Cleared s d among f = delete_duplicates_but-clears _ _ hashes s.pool d among f

  perform_all-Cleared :
      (cs : List Call) (s : Progress)
      → Underway n txs hashes s
      → Cleared s.pool
      → Cleared (perform_all n txs hashes cs s).pool
  unfolding perform_all
  perform_all-Cleared [] s u clear = clear
  perform_all-Cleared (c ∷ cs) s u clear =
      perform_all-Cleared cs (perform n txs hashes c s) (perform-Underway n txs hashes c s u)
        (perform-Cleared c s u clear)

  pub perform_all-clears :
      (cs : List Call) (s : Progress)
      → Underway n txs hashes s
      → deletes cs ≡ true
      → Cleared (perform_all n txs hashes cs s).pool
  unfolding perform_all
  perform_all-clears [] s u h = absurd (cc h)
  perform_all-clears (call_of i ∷ cs) s u h =
      perform_all-clears cs (perform n txs hashes (call_of i) s)
        (perform-Underway n txs hashes (call_of i) s u) h
  perform_all-clears (deletion ∷ cs) s u h =
      perform_all-Cleared cs (perform n txs hashes deletion s)
        (perform-Underway n txs hashes deletion s u) (deletion-Cleared s)

  pub perform_all-UniqueHashes :
      (cs : List Call) (s : Progress)
      → UniqueHashes s.pool
      → UniqueHashes (perform_all n txs hashes cs s).pool
  unfolding perform_all perform
  perform_all-UniqueHashes [] s u = u
  perform_all-UniqueHashes (call_of i ∷ cs) s u =
      perform_all-UniqueHashes cs (perform n txs hashes (call_of i) s)
        (advance_at-UniqueHashes hashes n i s.pool s.tasks u)
  perform_all-UniqueHashes (deletion ∷ cs) s u =
      perform_all-UniqueHashes cs (perform n txs hashes deletion s)
        (delete_duplicates_but-UniqueHashes _ _ hashes s.pool u)

  pub perform_all-leaves :
      (cs : List Call) (s : Progress) (d : Pooled)
      → Underway n txs hashes s
      → Among d s.pool
      → is_in hashes d.transaction.transaction_hash ≡ false
      → rivals txs d ≡ false
      → Among d (perform_all n txs hashes cs s).pool
  unfolding perform_all perform
  perform_all-leaves [] s d u among f g = among
  perform_all-leaves (call_of i ∷ cs) s d u among f g =
      perform_all-leaves cs (perform n txs hashes (call_of i) s) d
        (perform-Underway n txs hashes (call_of i) s u)
        (advance_at-leaves hashes n i s.pool s.tasks d u.reached among f) f g
  perform_all-leaves (deletion ∷ cs) s d u among f g =
      perform_all-leaves cs (perform n txs hashes deletion s) d
        (perform-Underway n txs hashes deletion s u)
        (delete_duplicates_but-leaves _ _ hashes s.pool d among g) f g
