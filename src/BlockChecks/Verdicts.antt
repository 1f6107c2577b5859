-- ===== src/BlockChecks/Verdicts.antt =====
-- What it means that `checkBlock` of nightfall-optimist/src/services/check-block.mjs returns.
use nightfall.Common.{
  ℕ, ◌+◌, ◌≡◌, ◌≢◌, refl, ap, ◌⊎◌, inl, inr, Option, none, some, List, [], ◌∷◌, arith, eq-cases,
  lt-cases, eq→==, ne→==, lt→ltb, le→ltb, Result, ok, throws, through, ok-injective,
}
use nightfall.BlockAssembler.Mempool.{Transaction}
use nightfall.BlockChecks.Duplicates.{Duplicate, check_duplicates_within_block}
use nightfall.BlockChecks.Check.{
  Block, BlockError, duplicate_commitments, duplicate_nullifiers, Database, prior_block, must_be,
  found, check_leaf_count, check_block_root, rethrow, unless, check_frontier, check_transactions,
  check_block,
}
use nightfall.BlockChecks.Distinct.{Distinct}
use nightfall.BlockChecks.Accepted.{values_of, check_duplicates_within_block-Distinct}

must_be-eq : (m n : ℕ) (e : BlockError) (x : Unit {0}) → must_be m n e ≡ ok x → m ≡ n
must_be-eq m n e x h = elim (eq-cases m n) [
  | inl same ↦ same
  | inr ne ↦ absurd (cc (rw (ne→== m n ne) at h))
]

found-eq : (o : Option Block) (b : Block) → found o ≡ ok b → o ≡ some b
found-eq none b h = absurd (cc)
found-eq (some a) b h = ap some (ok-injective a b h)

rethrow-ok :
    (e : Duplicate → BlockError) (r : Result Duplicate (Unit {0})) (x : Unit {0})
    → rethrow e r ≡ ok x
    → r ≡ ok tt
unfolding rethrow
rethrow-ok e (ok y) x h = refl
rethrow-ok e (throws d) x h = absurd (cc)

unless-ok :
    (o : Option ℕ) (rest : Result BlockError (Unit {0})) (x : Unit {0})
    → unless o rest ≡ ok x
    → (o ≡ none) × (rest ≡ ok x)
unless-ok none rest x h = (refl, h)
unless-ok (some c) rest x h = absurd (cc)

-- The leaves up to the block are those up to the block before and its own.
abbrev pub LeavesAddUp : Database → Block → Type 0
LeavesAddUp db block =
    (current : Block) × (db.block_by_number block.block_number_l2 ≡ some current)
    × (((block.block_number_l2 ≡ 0) × (current.n_commitments ≡ block.leaf_count))
        ⊎ ((prior : Block) × (prior_block db block.block_number_l2 ≡ some prior)
            × (prior.leaf_count + current.n_commitments ≡ block.leaf_count)))

check_leaf_count-LeavesAddUp :
    (db : Database) (block : Block) (x : Unit {0})
    → check_leaf_count db block ≡ ok x
    → LeavesAddUp db block
unfolding check_leaf_count
check_leaf_count-LeavesAddUp db block x h =
    let (current, is_current, rest) =
      through (found (db.block_by_number block.block_number_l2)) _ h in
    elim (lt-cases 0 block.block_number_l2) [
      | inl pos ↦
          let (prior, is_prior, same) =
            through (found (prior_block db block.block_number_l2)) _
              (rw (lt→ltb 0 block.block_number_l2 pos) at rest) in
          (
            current,
            found-eq _ current is_current,
            inr (prior, found-eq _ prior is_prior, must_be-eq _ _ _ x same),
          )
      | inr first ↦ (
        current,
        found-eq _ current is_current,
        inl (omega arith, must_be-eq _ _ _ x (rw (le→ltb 0 block.block_number_l2 first) at rest)),
      )
    ]

-- The root is that of the tree with these leaves; of the block before if it adds none.
abbrev pub RootAgrees : Database → Block → Type 0
RootAgrees db block =
    ((block.n_commitments ≡ 0)
      × (prior : Block) × (prior_block db block.block_number_l2 ≡ some prior)
      × (prior.root ≡ block.root))
    ⊎ ((block.n_commitments ≢ 0) × (db.root_by_leaf_count block.leaf_count ≡ block.root))

check_block_root-RootAgrees :
    (db : Database) (block : Block) (x : Unit {0})
    → check_block_root db block ≡ ok x
    → RootAgrees db block
unfolding check_block_root
check_block_root-RootAgrees db block x h = elim (eq-cases block.n_commitments 0) [
  | inl e ↦
      let (prior, is_prior, same) =
        through (found (prior_block db block.block_number_l2)) _
          (rw (eq→== block.n_commitments 0 e) at h) in
      inl (e, prior, found-eq _ prior is_prior, must_be-eq _ _ _ x same)
  | inr ne ↦ inr (ne, must_be-eq _ _ _ x (rw (ne→== block.n_commitments 0 ne) at h))
]

module _ (calc_frontier_hash : List ℕ → ℕ) (check_transaction : Transaction → ℕ → Option ℕ) where
  abbrev pub AllPass : List Transaction → ℕ → Type 0
  AllPass [] n = Unit {0}
  AllPass (tx ∷ txs) n = (check_transaction tx n ≡ none) × AllPass txs n

  check_transactions-AllPass :
      (txs : List Transaction) (n : ℕ) (x : Unit {0})
      → check_transactions calc_frontier_hash check_transaction txs n ≡ ok x
      → AllPass txs n
  unfolding check_transactions
  check_transactions-AllPass [] n x h = tt
  check_transactions-AllPass (tx ∷ txs) n x h =
      let (passes, rest) =
        unless-ok (check_transaction tx n)
          (check_transactions calc_frontier_hash check_transaction txs n) x h in
      (passes, check_transactions-AllPass txs n x rest)

  -- What a block must be.
  pub record Valid (db : Database) (block : Block) (txs : List Transaction) : Type 0 where
    pub leaves_add_up : LeavesAddUp db block
    pub root_agrees : RootAgrees db block
    pub frontier_agrees :
        calc_frontier_hash (db.frontier_by_number block.block_number_l2) ≡ block.frontier_hash
    pub commitments_differ : Distinct (values_of (λ (tx : Transaction). tx.commitments) txs)
    pub nullifiers_differ : Distinct (values_of (λ (tx : Transaction). tx.nullifiers) txs)
    pub transactions_pass : AllPass txs block.block_number_l2

  -- When `checkBlock` returns, the leaf count is that of the block before and the block's own
  -- commitments, the root is that of the tree, or of the block before if there are no commitments,
  -- the frontier's hash agrees, no commitment and no nullifier other than zero stands twice in the
  -- block, and every transaction passes its check.
  pub check_block-Valid :
      (db : Database) (block : Block) (txs : List Transaction) (x : Unit {0})
      → check_block calc_frontier_hash check_transaction db block txs ≡ ok x
      → Valid db block txs
  unfolding check_block
  check_block-Valid db block txs x h =
      let (u1, leaves, h1) = through (check_leaf_count db block) _ h in
      let (u2, root, h2) = through (check_block_root db block) _ h1 in
      let (u3, frontier, h3) =
        through (check_frontier calc_frontier_hash check_transaction db block) _ h2 in
      let (u4, commitments, h4) =
        through
          (rethrow duplicate_commitments
            (check_duplicates_within_block (λ (tx : Transaction). tx.commitments) txs))
          _ h3 in
      let (u5, nullifiers, pass) =
        through
          (rethrow duplicate_nullifiers
            (check_duplicates_within_block (λ (tx : Transaction). tx.nullifiers) txs))
          _ h4 in
      record {
        leaves_add_up = check_leaf_count-LeavesAddUp db block u1 leaves;
        root_agrees = check_block_root-RootAgrees db block u2 root;
        frontier_agrees = frontier_agrees_of u3 frontier;
        commitments_differ =
            check_duplicates_within_block-Distinct (λ (tx : Transaction). tx.commitments) txs
              (rethrow-ok duplicate_commitments _ u4 commitments);
        nullifiers_differ =
            check_duplicates_within_block-Distinct (λ (tx : Transaction). tx.nullifiers) txs
              (rethrow-ok duplicate_nullifiers _ u5 nullifiers);
        transactions_pass = check_transactions-AllPass txs block.block_number_l2 x pass;
      }
    where
      frontier_agrees_of :
          (u : Unit {0})
          → check_frontier calc_frontier_hash check_transaction db block ≡ ok u
          → calc_frontier_hash (db.frontier_by_number block.block_number_l2) ≡ block.frontier_hash
      frontier_agrees_of u same = must_be-eq _ _ _ u (unfold check_frontier in same)
