-- ===== src/ProposedBlocks/Recorded.antt =====
-- What `blockProposedEventHandler` of nightfall-optimist/src/event-handlers/block-proposed.mjs does with
-- the transactions of a block, in whichever order its calls come.
use nightfall.Common.{
  arith, Among, ℕ, zero, suc, ◌+◌, ◌-◌, ◌≤◌, ◌≡◌, refl, sym, ap, subst, ◌∙◌, inl, inr, List, [],
  ◌∷◌, map, true, Bool-cases, ◌==◌, ==→eq, if◌then◌else◌,
}
use nightfall.BlockAssembler.Mempool.{Transaction, Pool, is_in}
use nightfall.ProposedBlocks.Handler.{
  Stage, saving, reading, updating, returned, rejected, delete_duplicates_but, Task, Progress, Call,
  call_of, deletion, nonzero_of, start, advance_at, perform, perform_all, record_transactions,
}
use nightfall.ProposedBlocks.Keeping.{Settled, Recorded, Reached, delete_duplicates_but-Keeps}
use nightfall.ProposedBlocks.Reading.{delete_duplicates_but-Among}
use nightfall.ProposedBlocks.Calls.{
  left_of, advance-left_of, AllReached, AllReached-kept, advance_at-Settled, advance_at-AllReached,
}

-- How often a schedule calls the function at an index.
abbrev pub calls_of : ℕ → List Call → ℕ
calls_of i [] = 0
calls_of i (call_of j ∷ cs) = if j == i then suc (calls_of i cs) else calls_of i cs
calls_of i (deletion ∷ cs) = calls_of i cs

-- The function of every transaction has all the calls that it may make.
abbrev pub Fair : ℕ → List Transaction → List Call → Type 0
Fair i [] cs = Unit {0}
Fair i (tx ∷ txs) cs = (3 ≤ calls_of i cs) × Fair (suc i) txs cs

-- The calls left to the function at an index.
abbrev pub left_at : ℕ → List Task → ℕ
left_at i [] = 0
left_at zero (t ∷ ts) = left_of t.stage
left_at (suc i) (t ∷ ts) = left_at i ts

advance_at-here :
    (n i : ℕ) (pool : Pool) (ts : List Task)
    → left_at i (advance_at n i pool ts).1 ≤ left_at i ts - 1
unfolding advance_at
advance_at-here n i pool [] = omega arith
advance_at-here n zero pool (t ∷ ts) = advance-left_of n t.tx t.stage pool
advance_at-here n (suc i) pool (t ∷ ts) = advance_at-here n i pool ts

advance_at-there :
    (n j i : ℕ) (pool : Pool) (ts : List Task) → left_at i (advance_at n j pool ts).1 ≤ left_at i ts
unfolding advance_at
advance_at-there n j i pool [] = omega arith
advance_at-there n zero zero pool (t ∷ ts) =
    let h = advance-left_of n t.tx t.stage pool in omega arith
advance_at-there n zero (suc i) pool (t ∷ ts) = omega arith
advance_at-there n (suc j) zero pool (t ∷ ts) = omega arith
advance_at-there n (suc j) (suc i) pool (t ∷ ts) = advance_at-there n j i pool ts

-- The transactions of the functions stay the same.
advance_at-tx :
    (n i : ℕ) (pool : Pool) (ts : List Task)
    → map (λ (t : Task). t.tx) (advance_at n i pool ts).1 ≡ map (λ (t : Task). t.tx) ts
unfolding advance_at
advance_at-tx n i pool [] = refl
advance_at-tx n zero pool (t ∷ ts) = refl
advance_at-tx n (suc i) pool (t ∷ ts) =
    ap (λ (r : List Transaction). t.tx ∷ r) (advance_at-tx n i pool ts)

module _ (n : ℕ) (txs : List Transaction) (hashes : List ℕ) where
  -- What holds at every point of a schedule.
  pub record Underway (s : Progress) : Type 0 where
    pub settled : Settled s.pool
    pub reached : AllReached hashes s.pool s.tasks
    pub same_txs : map (λ (t : Task). t.tx) s.tasks ≡ txs

  pub perform-Underway :
      (c : Call) (s : Progress) → Underway s → Underway (perform n txs hashes c s)
  unfolding perform
  perform-Underway (call_of i) s u = record {
    settled = advance_at-Settled n i s.pool s.tasks u.settled;
    reached = advance_at-AllReached hashes n i s.pool s.tasks u.settled u.reached;
    same_txs = advance_at-tx n i s.pool s.tasks ∙ u.same_txs;
  }
  perform-Underway deletion s u =
      let cs = nonzero_of (λ t. t.commitments) txs in
      let ns = nonzero_of (λ t. t.nullifiers) txs in
      record {
        settled =
            λ d m among. u.settled d m (delete_duplicates_but-Among cs ns hashes s.pool d among);
        reached =
            AllReached-kept hashes s.pool (delete_duplicates_but cs ns hashes s.pool) s.tasks
              (delete_duplicates_but-Keeps hashes cs ns s.pool) u.reached;
        same_txs = u.same_txs;
      }

  pub perform_all-Underway :
      (cs : List Call) (s : Progress) → Underway s → Underway (perform_all n txs hashes cs s)
  unfolding perform_all
  perform_all-Underway [] s u = u
  perform_all-Underway (c ∷ cs) s u =
      perform_all-Underway cs (perform n txs hashes c s) (perform-Underway c s u)

  -- Every call of a function leaves it one less.
  pub perform_all-left_at :
      (i : ℕ) (cs : List Call) (s : Progress)
      → left_at i (perform_all n txs hashes cs s).tasks ≤ left_at i s.tasks - calls_of i cs
  unfolding perform_all perform
  perform_all-left_at i [] s = omega arith
  perform_all-left_at i (call_of j ∷ cs) s = elim (Bool-cases (j == i)) [
    | inl t ↦
        let e = ==→eq j i t in
        let h = perform_all-left_at i cs (perform n txs hashes (call_of j) s) in
        let g =
          subst (λ k. left_at i (advance_at n k s.pool s.tasks).1 ≤ left_at i s.tasks - 1) (sym e)
            (advance_at-here n i s.pool s.tasks) in
        rw t (omega arith)
    | inr f ↦
        let h = perform_all-left_at i cs (perform n txs hashes (call_of j) s) in
        let g = advance_at-there n j i s.pool s.tasks in rw f (omega arith)
  ]
  perform_all-left_at i (deletion ∷ cs) s =
      perform_all-left_at i cs (perform n txs hashes deletion s)

  pub all_starting :
      (pool : Pool) (rest : List Transaction)
      → ((tx : Transaction) → Among tx rest → is_in hashes tx.transaction_hash ≡ true)
      → AllReached hashes pool (map start rest)
  all_starting pool [] h = tt
  all_starting pool (tx ∷ rest) h =
      (h tx (inl refl), tt, all_starting pool rest (λ x among. h x (inr among)))

  pub starting_tx : (rest : List Transaction) → map (λ (t : Task). t.tx) (map start rest) ≡ rest
  starting_tx [] = refl
  starting_tx (tx ∷ rest) = ap (λ (r : List Transaction). tx ∷ r) (starting_tx rest)

zero_plus : (k : ℕ) → k ≡ zero + k
zero_plus k = omega arith

-- A fair schedule leaves no calls.
left_at-starting :
    (cs : List Call) (k i : ℕ) (txs : List Transaction)
    → Fair k txs cs
    → left_at i (map start txs) ≤ calls_of (i + k) cs
left_at-starting cs k i [] fair = omega arith
left_at-starting cs k zero (tx ∷ txs) (enough, fair) =
    subst (λ j. 3 ≤ calls_of j cs) (zero_plus k) enough
left_at-starting cs k (suc i) (tx ∷ txs) (enough, fair) =
    subst (λ j. left_at i (map start txs) ≤ calls_of j cs) (the_same i k)
      (left_at-starting cs (suc k) i txs fair)
  where
    the_same : (i k : ℕ) → i + suc k ≡ suc i + k
    the_same i k = omega arith

-- A function with no calls left has returned.
no_calls_left :
    (pool : Pool) (hash : ℕ) (s : Stage) → left_of s ≡ 0 → Reached pool hash s → Recorded hash pool
no_calls_left pool hash saving e r = absurd (omega arith)
no_calls_left pool hash reading e r = absurd (omega arith)
no_calls_left pool hash updating e r = absurd (omega arith)
no_calls_left pool hash returned e r = r
no_calls_left pool hash rejected e r = absurd r

pub AllReached-Recorded :
    (spared : List ℕ) (pool : Pool) (ts : List Task)
    → ((i : ℕ) → left_at i ts ≡ 0)
    → AllReached spared pool ts
    → (tx : Transaction) → Among tx (map (λ (t : Task). t.tx) ts)
    → Recorded tx.transaction_hash pool
AllReached-Recorded spared pool [] done all tx among = absurd among
AllReached-Recorded spared pool (t ∷ ts) done (h, r, rest) tx (inl e) =
    subst (λ (x : Transaction). Recorded x.transaction_hash pool) e
      (no_calls_left pool t.tx.transaction_hash t.stage (done 0) r)
AllReached-Recorded spared pool (t ∷ ts) done (h, r, rest) tx (inr later) =
    AllReached-Recorded spared pool ts (λ i. done (suc i)) rest tx later

-- After a fair schedule every function has returned.
pub perform_all-finishes :
    (n : ℕ) (txs : List Transaction) (hashes : List ℕ) (cs : List Call) (pool : Pool)
    → Fair 0 txs cs
    → (i : ℕ) → left_at i (record_transactions n txs hashes cs pool).tasks ≡ 0
unfolding record_transactions
perform_all-finishes n txs hashes cs pool fair i =
    let s : Progress = record { pool = pool; tasks = map start txs } in
    let g =
      subst (λ j. left_at i (map start txs) ≤ calls_of j cs) (plus_zero i)
        (left_at-starting cs 0 i txs fair) in
    nothing (left_at i (perform_all n txs hashes cs s).tasks) (left_at i (map start txs))
      (calls_of i cs) (perform_all-left_at n txs hashes i cs s) g
  where
    plus_zero : (i : ℕ) → i + 0 ≡ i
    plus_zero i = omega arith

    nothing : (a b c : ℕ) → a ≤ b - c → b ≤ c → a ≡ 0
    nothing a b c h g = omega arith
