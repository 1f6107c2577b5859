-- ===== src/BlockAssembler/Sizes.antt =====
-- The sizes of the blocks that `conditionalMakeBlock` of
-- nightfall-optimist/src/services/block-assembler.mjs proposes.
use nightfall.Common.{
  ℕ, suc, ◌+◌, ◌-◌, ◌≤◌, ◌<◌, ◌≡◌, ◌≢◌, refl, sym, ap, ap, ◌∙◌, subst, ◌⊎◌, inl, inr, List, [], ◌∷◌,
  ◌++◌, map, length, take, concat, Bool, true, false, ltb, leb, ◌==◌, ◌&&◌, ◌||◌, if◌then◌else◌,
  arith, lt-cases, lt→ltb, le→ltb, ne→==, append-nil, take_all,
}
use nightfall.BlockAssembler.Mempool.{Transaction}
use nightfall.BlockAssembler.Assembly.{
  Assembler, transaction_size, sum, batch_ends, slices, transaction_batches,
}
use nightfall.BlockAssembler.Batches.{
  size_of, size_of-append, closed_blocks, open_block, slices-batch_ends, closed_blocks_complete,
}

-- Every transaction fits into a block of its own.
abbrev pub EachFits : ℕ → List Transaction → Type 0
EachFits limit [] = Unit {0}
EachFits limit (tx ∷ txs) = (transaction_size tx ≤ limit) × EachFits limit txs

-- Every block has transactions, and they fit.
abbrev pub Proposable : ℕ → List (List Transaction) → Type 0
Proposable limit [] = Unit {0}
Proposable limit (block ∷ blocks) =
    ((block ≢ []) × (size_of block ≤ limit)) × Proposable limit blocks

snoc_filled : (xs : List Transaction) (x : Transaction) → (xs ++ x ∷ []) ≢ []
snoc_filled [] x h = absurd (cc)
snoc_filled (y ∷ xs) x h = absurd (cc)

one_filled : (x : Transaction) → (x ∷ []) ≢ []
one_filled x h = absurd (cc)

-- The block that is open stays within the limit.
open_block-le :
    (limit : ℕ) (block rest : List Transaction)
    → size_of block ≤ limit
    → EachFits limit rest
    → size_of (open_block limit block rest) ≤ limit
open_block-le limit block [] le fits = le
open_block-le limit block (tx ∷ rest) le (one, fits) =
    elim (lt-cases limit (size_of block + transaction_size tx)) [
      | inl over ↦ rw (lt→ltb _ _ over) (open_block-le limit (tx ∷ []) rest (omega arith) fits)
      | inr under ↦ rw (le→ltb _ _ under) (
          open_block-le limit (block ++ tx ∷ []) rest
            (omega (arith, size_of-append block (tx ∷ []))) fits)
    ]

closed_blocks-Proposable :
    (limit : ℕ) (block rest : List Transaction)
    → (block ≡ []) ⊎ (block ≢ [])
    → size_of block ≤ limit
    → EachFits limit rest
    → Proposable limit (closed_blocks limit block rest)
closed_blocks-Proposable limit block [] filled le fits = tt
closed_blocks-Proposable limit block (tx ∷ rest) filled le (one, fits) =
    elim (lt-cases limit (size_of block + transaction_size tx)) [
      | inl over ↦ rw (lt→ltb _ _ over) (
        (elim filled [ inl e ↦ absurd (too_small block tx e over one) | inr ne ↦ ne ], le),
        closed_blocks-Proposable limit (tx ∷ []) rest (inr (one_filled tx)) (omega arith) fits,
      )
      | inr under ↦ rw (le→ltb _ _ under) (
          closed_blocks-Proposable limit (block ++ tx ∷ []) rest (inr (snoc_filled block tx))
            (omega (arith, size_of-append block (tx ∷ []))) fits)
    ]
  where
    too_small :
        (block : List Transaction) (tx : Transaction)
        → block ≡ []
        → limit < size_of block + transaction_size tx
        → transaction_size tx ≤ limit
        → ⊥
    too_small [] tx e over one = omega arith
    too_small (b ∷ block) tx e over one = absurd (cc)

-- The blocks that `conditionalMakeBlock` cuts from the mempool.
abbrev pub blocks_of : ℕ → ℕ → Assembler → List Transaction → List (List Transaction)
blocks_of limit current_time st txs = slices 0 (transaction_batches limit current_time st txs) txs

size_pos : (tx : Transaction) → 0 < transaction_size tx
unfolding transaction_size
size_pos tx = omega arith

-- Whether a block that is not full is due.
abbrev pub is_due : ℕ → Assembler → Bool
is_due current_time st =
    st.make_now
    || (ltb 0 st.block_period_ms && leb st.block_period_ms (current_time - st.last_block_timestamp))

-- The blocks that are full, or else, when one is due, a single one of the whole mempool.
blocks_of-cases :
    (limit current_time : ℕ) (st : Assembler) (txs : List Transaction)
    → txs ≢ []
    → ((blocks_of limit current_time st txs ≡ closed_blocks limit [] txs)
        × ((is_due current_time st ≡ false) ⊎ (closed_blocks limit [] txs ≢ [])))
      ⊎ ((blocks_of limit current_time st txs ≡ txs ∷ [])
          × (closed_blocks limit [] txs ≡ [])
          × (is_due current_time st ≡ true))
unfolding transaction_batches slices
blocks_of-cases limit current_time st [] filled = absurd (filled refl)
blocks_of-cases limit current_time st (tx ∷ txs) filled =
    rw (lt→ltb 0 (sum (map transaction_size (tx ∷ txs))) (omega (arith, size_pos tx))) (
      go (batch_ends limit 0 0 (map transaction_size (tx ∷ txs))) (is_due current_time st) refl
        (slices-batch_ends limit 0 0 [] (tx ∷ txs) (tx ∷ txs) refl refl))
  where
    length-map : (ts : List Transaction) → length ts ≤ length (map transaction_size ts)
    length-map [] = omega arith
    length-map (t ∷ ts) = omega (arith, length-map ts)

    whole :
        (n : ℕ) (ts : List Transaction)
        → n ≡ length (map transaction_size ts)
        → (take (n - 0) ts ∷ []) ≡ ts ∷ []
    whole n ts h = ap (λ l. l ∷ []) (take_all (n - 0) ts (omega (arith, h, length-map ts)))

    filled_slices : (e : ℕ) (ends : List ℕ) → slices 0 (e ∷ ends) (tx ∷ txs) ≢ []
    filled_slices e ends h = absurd (cc)

    go :
        (ends : List ℕ) (due : Bool)
        → is_due current_time st ≡ due
        → slices 0 ends (tx ∷ txs) ≡ closed_blocks limit [] (tx ∷ txs)
        → let batches =
            if length ends == 0 && due
            then length (map transaction_size (tx ∷ txs)) ∷ []
            else ends in
          ((slices 0 batches (tx ∷ txs) ≡ closed_blocks limit [] (tx ∷ txs))
            × ((is_due current_time st ≡ false) ⊎ (closed_blocks limit [] (tx ∷ txs) ≢ [])))
          ⊎ ((slices 0 batches (tx ∷ txs) ≡ (tx ∷ txs) ∷ [])
              × (closed_blocks limit [] (tx ∷ txs) ≡ [])
              × (is_due current_time st ≡ true))
    go [] true due same =
        inr (whole (length (map transaction_size (tx ∷ txs))) (tx ∷ txs) refl, sym same, due)
    go [] false due same = inl (same, inl due)
    go (e ∷ ends) due h same =
        rw (ne→== (suc (length ends)) 0 (omega arith))
          (inl (same, inr (λ empty. filled_slices e ends (same ∙ empty))))

pub filled-cases : (txs : List Transaction) → (txs ≡ []) ⊎ (txs ≢ [])
filled-cases [] = inl refl
filled-cases (tx ∷ txs) = inr (λ h. absurd (cc h))

blocks_of-nil : (limit current_time : ℕ) (st : Assembler) → blocks_of limit current_time st [] ≡ []
unfolding transaction_batches slices
blocks_of-nil limit current_time st = refl

-- What is left of the mempool: the block that is open, unless it is proposed as well.
pub record Split (limit : ℕ) (blocks : List (List Transaction)) (txs : List Transaction)
    : Type 0 where
  pub rest : List Transaction
  pub complete : concat blocks ++ rest ≡ txs
  pub proposable : Proposable limit blocks
  pub small : size_of rest ≤ limit

-- The blocks are a beginning of the mempool, each with transactions that fit, and the rest fits into
-- one block.
pub blocks_of-Split :
    (limit current_time : ℕ) (st : Assembler) (txs : List Transaction)
    → EachFits limit txs
    → Split limit (blocks_of limit current_time st txs) txs
blocks_of-Split limit current_time st txs fits = elim (filled-cases txs) [
  | inl e ↦
      rw (e, blocks_of-nil limit current_time st)
        (record { rest = []; complete = refl; proposable = tt; small = omega arith })
  | inr filled ↦ elim (blocks_of-cases limit current_time st txs filled) [
    | inl (same, why) ↦ rw same (record {
      rest = open_block limit [] txs;
      complete = closed_blocks_complete limit [] txs;
      proposable = closed_blocks-Proposable limit [] txs (inl refl) (omega arith) fits;
      small = open_block-le limit [] txs (omega arith) fits;
    })
    | inr (same, none_full, due) ↦
        let all_open : open_block limit [] txs ≡ txs =
          subst (λ bs. concat bs ++ open_block limit [] txs ≡ txs) none_full
            (closed_blocks_complete limit [] txs) in
        rw same (record {
          rest = [];
          complete = append-nil (txs ++ []) ∙ append-nil txs;
          proposable = (
            (
              filled,
              subst (λ b. size_of b ≤ limit) all_open
                  (open_block-le limit [] txs (omega arith) fits),
            ),
            tt,
          );
          small = omega arith;
        })
  ]
]

-- When a block is due and there is a transaction, there is a block.
pub blocks_of-due :
    (limit current_time : ℕ) (st : Assembler) (txs : List Transaction)
    → txs ≢ []
    → is_due current_time st ≡ true
    → blocks_of limit current_time st txs ≢ []
blocks_of-due limit current_time st txs filled due empty =
    elim (blocks_of-cases limit current_time st txs filled) [
      | inl (same, inl not_due) ↦ absurd (cc (sym due ∙ not_due))
      | inl (same, inr full) ↦ full (sym same ∙ empty)
      | inr (same, none_full, h) ↦ absurd (cc (sym same ∙ empty))
    ]

-- Whatever the sizes, the blocks are a beginning of the mempool.
pub blocks_of_complete :
    (limit current_time : ℕ) (st : Assembler) (txs : List Transaction)
    → (rest : List Transaction) × (concat (blocks_of limit current_time st txs) ++ rest ≡ txs)
blocks_of_complete limit current_time st txs = elim (filled-cases txs) [
  | inl e ↦ rw (e, blocks_of-nil limit current_time st) ([], refl)
  | inr filled ↦ elim (blocks_of-cases limit current_time st txs filled) [
    | inl (same, why) ↦ rw same (open_block limit [] txs, closed_blocks_complete limit [] txs)
    | inr (same, none_full, due) ↦ rw same ([], append-nil (txs ++ []) ∙ append-nil txs)
  ]
]
