-- ===== src/BlockAssembler/Removal.antt =====
-- `removeTransactionsFromMemPool` of nightfall-optimist/src/services/database.mjs takes exactly the
-- transactions of a block out of the mempool.
use nightfall.Common.{
  ℕ, ◌≡◌, refl, sym, ap, ◌∙◌, ◌⊎◌, inl, inr, none, some, List, [], ◌∷◌, ◌++◌, map, Bool, true,
  false, ◌==◌, ◌&&◌, ◌||◌, if◌then◌else◌, Bool-cases, Option-cases, eq-cases, eq→==, ne→==,
}
use nightfall.BlockAssembler.Mempool.{
  Transaction, Pooled, Pool, is_in, leave, remove_transactions_from_mempool,
  get_mempool_transactions,
}

abbrev pub hashes_of : List Transaction → List ℕ
hashes_of = map (λ (tx : Transaction). tx.transaction_hash)

-- What is in the mempool is in no block.
abbrev pub Waiting : Pool → Type 0
Waiting [] = Unit {0}
Waiting (d ∷ ds) = ((d.mempool ≡ false) ⊎ (d.block_number_l2 ≡ none)) × Waiting ds

-- No two transactions have the same hash.
abbrev pub DistinctHashes : List Transaction → Type 0
DistinctHashes [] = Unit {0}
DistinctHashes (tx ∷ txs) = (is_in (hashes_of txs) tx.transaction_hash ≡ false) × DistinctHashes txs

abbrev without : List ℕ → List Transaction → List Transaction
without hashes [] = []
without hashes (tx ∷ txs) =
    let rest = without hashes txs in if is_in hashes tx.transaction_hash then rest else tx ∷ rest

abbrev NoneIn : List ℕ → List Transaction → Type 0
NoneIn hashes [] = Unit {0}
NoneIn hashes (tx ∷ txs) = (is_in hashes tx.transaction_hash ≡ false) × NoneIn hashes txs

get_mempool_transactions-remove :
    (hashes : List ℕ) (pool : Pool)
    → Waiting pool
    → get_mempool_transactions (remove_transactions_from_mempool hashes pool)
      ≡ without hashes (get_mempool_transactions pool)
unfolding get_mempool_transactions remove_transactions_from_mempool
get_mempool_transactions-remove hashes [] waiting = refl
get_mempool_transactions-remove hashes (d ∷ ds) (ok_d, waiting) =
    elim (Bool-cases (is_in hashes d.transaction.transaction_hash)) [
      | inl t ↦ elim (Bool-cases d.mempool) [
        | inl m ↦
            let e : d.block_number_l2 ≡ none = elim ok_d [ inl f ↦ absurd (cc) | inr e ↦ e ] in
            rw (t, e, m, t) (get_mempool_transactions-remove hashes ds waiting)
        | inr m ↦ elim (Option-cases d.block_number_l2) [
          | inl e ↦ rw (t, e, m) (get_mempool_transactions-remove hashes ds waiting)
          | inr (n, e) ↦ rw (t, e, m) (get_mempool_transactions-remove hashes ds waiting)
        ]
      ]
      | inr f ↦ elim (Bool-cases d.mempool) [
        | inl m ↦
            rw (f, m, f)
              (ap (λ l. d.transaction ∷ l) (get_mempool_transactions-remove hashes ds waiting))
        | inr m ↦ rw (f, m) (get_mempool_transactions-remove hashes ds waiting)
      ]
    ]

pub Waiting-remove :
    (hashes : List ℕ) (pool : Pool)
    → Waiting pool
    → Waiting (remove_transactions_from_mempool hashes pool)
unfolding remove_transactions_from_mempool
Waiting-remove hashes [] waiting = tt
Waiting-remove hashes (d ∷ ds) (ok_d, waiting) = (left_out d ok_d, Waiting-remove hashes ds waiting)
  where
    left_out :
        (d : Pooled)
        → (d.mempool ≡ false) ⊎ (d.block_number_l2 ≡ none)
        → ((leave hashes d).mempool ≡ false) ⊎ ((leave hashes d).block_number_l2 ≡ none)
    left_out d h = go (
        is_in hashes d.transaction.transaction_hash
        && (elim d.block_number_l2 as (λ x. Bool) [ none ↦ true | some n ↦ false ]))
      where
        go :
            (taken : Bool)
            → ((if taken then record d { mempool = false } else d).mempool ≡ false)
              ⊎ ((if taken then record d { mempool = false } else d).block_number_l2 ≡ none)
        go true = inl refl
        go false = h

pub DistinctHashes-rest :
    (block rest : List Transaction) → DistinctHashes (block ++ rest) → DistinctHashes rest
DistinctHashes-rest [] rest distinct = distinct
DistinctHashes-rest (tx ∷ block) rest (new, distinct) = DistinctHashes-rest block rest distinct

-- A hash that is new to a list is new to its end.
new_rest :
    (h : ℕ) (block rest : List Transaction)
    → is_in (hashes_of (block ++ rest)) h ≡ false
    → NoneIn (h ∷ []) rest
unfolding is_in
new_rest h [] [] new = tt
new_rest h [] (tx ∷ rest) new = elim (eq-cases h tx.transaction_hash) [
  | inl e ↦ absurd (cc (rw (eq→== tx.transaction_hash h (sym e)) at new))
  | inr ne ↦ (
    rw (ne→== h tx.transaction_hash ne) refl,
    new_rest h [] rest (rw (ne→== tx.transaction_hash h (λ e. ne (sym e))) at new),
  )
]
new_rest h (tx ∷ block) rest new = elim (eq-cases h tx.transaction_hash) [
  | inl e ↦ absurd (cc (rw (eq→== tx.transaction_hash h (sym e)) at new))
  | inr ne ↦ new_rest h block rest (rw (ne→== tx.transaction_hash h (λ e. ne (sym e))) at new)
]

NoneIn-cons :
    (h : ℕ) (hashes : List ℕ) (txs : List Transaction)
    → NoneIn (h ∷ []) txs
    → NoneIn hashes txs
    → NoneIn (h ∷ hashes) txs
unfolding is_in
NoneIn-cons h hashes [] one all = tt
NoneIn-cons h hashes (tx ∷ txs) (n, one) (m, all) = (
  neither (h == tx.transaction_hash) (is_in hashes tx.transaction_hash) n m,
  NoneIn-cons h hashes txs one all,
)
  where
    neither : (a b : Bool) → (a || false) ≡ false → b ≡ false → (a || b) ≡ false
    neither true b p q = p
    neither false b p q = q

NoneIn-block :
    (block rest : List Transaction) → DistinctHashes (block ++ rest) → NoneIn (hashes_of block) rest
NoneIn-block [] rest distinct = nothing rest
  where
    nothing : (txs : List Transaction) → NoneIn [] txs
    nothing [] = tt
    nothing (tx ∷ txs) = (unfold is_in in refl, nothing txs)
NoneIn-block (tx ∷ block) rest (new, distinct) =
    NoneIn-cons tx.transaction_hash (hashes_of block) rest
      (new_rest tx.transaction_hash block rest new) (NoneIn-block block rest distinct)

without-NoneIn :
    (hashes : List ℕ) (txs : List Transaction) → NoneIn hashes txs → without hashes txs ≡ txs
without-NoneIn hashes [] other = refl
without-NoneIn hashes (tx ∷ txs) (n, other) =
    rw n (ap (λ l. tx ∷ l) (without-NoneIn hashes txs other))

abbrev AllIn : List ℕ → List Transaction → Type 0
AllIn hashes [] = Unit {0}
AllIn hashes (tx ∷ txs) = (is_in hashes tx.transaction_hash ≡ true) × AllIn hashes txs

AllIn-cons :
    (h : ℕ) (hashes : List ℕ) (txs : List Transaction) → AllIn hashes txs → AllIn (h ∷ hashes) txs
unfolding is_in
AllIn-cons h hashes [] all = tt
AllIn-cons h hashes (tx ∷ txs) (m, all) =
    (or_true (h == tx.transaction_hash) m, AllIn-cons h hashes txs all)
  where
    or_true : {b : Bool} (a : Bool) → b ≡ true → (a || b) ≡ true
    or_true true p = refl
    or_true false p = p

AllIn-block : (block : List Transaction) → AllIn (hashes_of block) block
AllIn-block [] = tt
AllIn-block (tx ∷ block) = (
  unfold is_in in rw (eq→== tx.transaction_hash tx.transaction_hash refl) refl,
  AllIn-cons tx.transaction_hash (hashes_of block) block (AllIn-block block),
)

without-AllIn :
    (hashes : List ℕ) (block rest : List Transaction)
    → AllIn hashes block
    → without hashes (block ++ rest) ≡ without hashes rest
without-AllIn hashes [] rest all = refl
without-AllIn hashes (tx ∷ block) rest (m, all) = rw m (without-AllIn hashes block rest all)

-- Removing a block leaves the rest of the mempool.
pub remove_block :
    (block rest : List Transaction) (pool : Pool)
    → Waiting pool
    → get_mempool_transactions pool ≡ block ++ rest
    → DistinctHashes (block ++ rest)
    → get_mempool_transactions (remove_transactions_from_mempool (hashes_of block) pool) ≡ rest
remove_block block rest pool waiting same distinct =
    get_mempool_transactions-remove (hashes_of block) pool waiting
    ∙ ap (without (hashes_of block)) same
    ∙ without-AllIn (hashes_of block) block rest (AllIn-block block)
    ∙ without-NoneIn (hashes_of block) rest (NoneIn-block block rest distinct)
