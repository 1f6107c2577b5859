-- ===== src/Rollback/Blocks.antt =====
-- What the loop over the blocks of `rollbackEventHandler` in
-- nightfall-optimist/src/event-handlers/rollback.mjs covers.
use nightfall.Common.{
  Among, Among-map, Among-append_left, Among-append_right, Among-append_either, ℕ, ◌≤◌, ◌<◌, ◌≡◌,
  ◌≢◌, refl, sym, ap, subst, ◌∙◌, ◌⊎◌, inl, inr, Option, none, some, List, [], ◌∷◌, Bool, true,
  false, ◌&&◌, Bool-cases, ◌==◌, ==→eq, ==→ne, ltb, ltb→lt, ltb→le, le→ltb,
}
use nightfall.BlockAssembler.Mempool.{Transaction, Pooled, Pool, is_in}
use nightfall.Rollback.Shared.{Merged, all_done, is_valid, is_invalid}
use nightfall.Rollback.Handler.{
  StoredBlock, delete_tree_by_block_number_l2, find_blocks_from_block_number_l2, is_at,
  get_transactions_by_hashes, delete_block, hashes_of, Verdict, invalid_transactions,
}
use nightfall.BlockAssembler.Members.{is_in-Among}
use nightfall.Rollback.Returned.{is_at_lem}

pub delete_tree-below :
    (number t : ℕ) (ts : List ℕ) → Among t (delete_tree_by_block_number_l2 number ts) → t < number
unfolding delete_tree_by_block_number_l2
delete_tree-below number t [] among = absurd among
delete_tree-below number t (x ∷ xs) among = elim (Bool-cases (ltb x number)) [
  | inl lt ↦
      let among' : Among t (x ∷ delete_tree_by_block_number_l2 number xs) = rw lt at among in
      elim among' [
        | inl e ↦ subst (λ n. n < number) e (ltb→lt x number lt)
        | inr later ↦ delete_tree-below number t xs later
      ]
  | inr f ↦ delete_tree-below number t xs (rw f at among)
]

pub find_blocks-finds :
    (number : ℕ) (b : StoredBlock) (bs : List StoredBlock)
    → Among b bs
    → number ≤ b.block_number_l2
    → Among b (find_blocks_from_block_number_l2 number bs)
unfolding find_blocks_from_block_number_l2
find_blocks-finds number b [] among le = absurd among
find_blocks-finds number b (x ∷ xs) (inl e) le =
    rw
      (le→ltb x.block_number_l2 number
        (subst (λ n. number ≤ n) (sym (ap (λ (y : StoredBlock). y.block_number_l2) e)) le))
      (inl e)
find_blocks-finds number b (x ∷ xs) (inr later) le =
    elim (Bool-cases (ltb x.block_number_l2 number)) [
      | inl t ↦ rw t (find_blocks-finds number b xs later le)
      | inr f ↦ rw f (inr (find_blocks-finds number b xs later le))
    ]

pub find_blocks-from :
    (number : ℕ) (b : StoredBlock) (bs : List StoredBlock)
    → Among b (find_blocks_from_block_number_l2 number bs)
    → number ≤ b.block_number_l2
unfolding find_blocks_from_block_number_l2
find_blocks-from number b [] among = absurd among
find_blocks-from number b (x ∷ xs) among = elim (Bool-cases (ltb x.block_number_l2 number)) [
  | inl t ↦ find_blocks-from number b xs (rw t at among)
  | inr f ↦
      let among' : Among b (x ∷ find_blocks_from_block_number_l2 number xs) = rw f at among in
      elim among' [
        | inl e ↦
            subst (λ (y : StoredBlock). number ≤ y.block_number_l2) e
              (ltb→le x.block_number_l2 number f)
        | inr later ↦ find_blocks-from number b xs later
      ]
]

pub get_transactions-gets :
    (pool : Pool) (b : StoredBlock) (d : Pooled)
    → Among d pool
    → is_in b.transaction_hashes d.transaction.transaction_hash ≡ true
    → d.block_number_l2 ≡ some b.block_number_l2
    → Among d.transaction (get_transactions_by_hashes pool b)
unfolding get_transactions_by_hashes
get_transactions-gets [] b d among h e = absurd among
get_transactions-gets (x ∷ xs) b d (inl same) h e =
    rw
      (subst
        (λ (y : Pooled).
          (is_in b.transaction_hashes y.transaction.transaction_hash && is_at b.block_number_l2 y)
          ≡ true)
        (sym same) (rw (h, is_at_lem d b.block_number_l2 e) refl))
      (inl (ap (λ (y : Pooled). y.transaction) same))
get_transactions-gets (x ∷ xs) b d (inr later) h e =
    elim (Bool-cases
      (is_in b.transaction_hashes x.transaction.transaction_hash && is_at b.block_number_l2 x)) [
        | inl t ↦ rw t (inr (get_transactions-gets xs b d later h e))
        | inr f ↦ rw f (get_transactions-gets xs b d later h e)
      ]

pub at_number : (d : Pooled) (m : ℕ) → is_at m d ≡ true → d.block_number_l2 ≡ some m
at_number d m h = from d.block_number_l2 refl
  where
    from : (o : Option ℕ) → d.block_number_l2 ≡ o → d.block_number_l2 ≡ some m
    from none e = absurd (cc (rw e at h))
    from (some k) e = e ∙ ap (λ n. some n) (==→eq k m (rw e at h))

pub get_transactions-from :
    (pool : Pool) (b : StoredBlock) (tx : Transaction)
    → Among tx (get_transactions_by_hashes pool b)
    → (d : Pooled) × Among d pool
      × (d.transaction ≡ tx)
      × (d.block_number_l2 ≡ some b.block_number_l2)
unfolding get_transactions_by_hashes
get_transactions-from [] b tx among = absurd among
get_transactions-from (x ∷ xs) b tx among =
    elim (Bool-cases
      (is_in b.transaction_hashes x.transaction.transaction_hash && is_at b.block_number_l2 x)) [
        | inl t ↦
            let among' : Among tx (x.transaction ∷ get_transactions_by_hashes xs b) =
              rw t at among in
            elim among' [
              | inl e ↦ (
                x,
                inl refl,
                e,
                at_number x b.block_number_l2 (
                    and_right (is_in b.transaction_hashes x.transaction.transaction_hash)
                      (is_at b.block_number_l2 x) t),
              )
              | inr later ↦
                  let (d, there, e, f) = get_transactions-from xs b tx later in (d, inr there, e, f)
            ]
        | inr f ↦
            let (d, there, e, g) = get_transactions-from xs b tx (rw f at among) in
            (d, inr there, e, g)
      ]
  where
    and_right : (a b : Bool) → (a && b) ≡ true → b ≡ true
    and_right true b h = h
    and_right false b h = absurd (cc h)

-- Each of the transactions goes one way.
pub Merged-either :
    {xs ys zs : List Transaction} (tx : Transaction)
    → Merged xs ys zs
    → Among tx zs
    → Among tx xs ⊎ Among tx ys
Merged-either tx all_done among = absurd among
Merged-either tx (is_valid z m) (inl e) = inl (inl e)
Merged-either tx (is_valid z m) (inr later) = elim (Merged-either tx m later) [
  | inl p ↦ inl (inr p)
  | inr q ↦ inr q
]
Merged-either tx (is_invalid z m) (inl e) = inr (inl e)
Merged-either tx (is_invalid z m) (inr later) = elim (Merged-either tx m later) [
  | inl p ↦ inl p
  | inr q ↦ inr (inr q)
]

pub Merged-invalid :
    {xs ys zs : List Transaction} (tx : Transaction) → Merged xs ys zs → Among tx ys → Among tx zs
Merged-invalid tx all_done among = absurd among
Merged-invalid tx (is_valid z m) among = inr (Merged-invalid tx m among)
Merged-invalid tx (is_invalid z m) (inl e) = inl e
Merged-invalid tx (is_invalid z m) (inr later) = inr (Merged-invalid tx m later)

pub hashes_of-Among :
    (tx : Transaction) (txs : List Transaction)
    → Among tx txs
    → is_in (hashes_of txs) tx.transaction_hash ≡ true
hashes_of-Among tx txs among =
    is_in-Among tx.transaction_hash (hashes_of txs)
      (Among-map (λ (x : Transaction). x.transaction_hash) tx txs among)

pub invalid_transactions-has :
    (v : Verdict) (vs : List Verdict) (h : ℕ)
    → Among v vs
    → Among h (hashes_of v.outcome.invalid_transactions)
    → Among h (invalid_transactions vs)
unfolding invalid_transactions
invalid_transactions-has v [] h among there = absurd among
invalid_transactions-has v (x ∷ xs) h (inl e) there =
    Among-append_left h (hashes_of x.outcome.invalid_transactions) (invalid_transactions xs)
      (subst (λ (y : Verdict). Among h (hashes_of y.outcome.invalid_transactions)) (sym e) there)
invalid_transactions-has v (x ∷ xs) h (inr later) there =
    Among-append_right h (hashes_of x.outcome.invalid_transactions) (invalid_transactions xs)
      (invalid_transactions-has v xs h later there)

pub invalid_transactions-from :
    (vs : List Verdict) (h : ℕ)
    → Among h (invalid_transactions vs)
    → (v : Verdict) × Among v vs × Among h (hashes_of v.outcome.invalid_transactions)
unfolding invalid_transactions
invalid_transactions-from [] h among = absurd among
invalid_transactions-from (x ∷ xs) h among =
    elim (Among-append_either h (hashes_of x.outcome.invalid_transactions) (invalid_transactions xs)
      among) [
        | inl first ↦ (x, inl refl, first)
        | inr later ↦
            let (v, there, invalid) = invalid_transactions-from xs h later in
            (v, inr there, invalid)
      ]

-- No two blocks have the same number.
abbrev pub NoBlock : ℕ → List StoredBlock → Type 0
NoBlock k [] = Unit {0}
NoBlock k (b ∷ bs) = (b.block_number_l2 ≢ k) × NoBlock k bs

abbrev pub Differ : List StoredBlock → Type 0
Differ [] = Unit {0}
Differ (b ∷ bs) = NoBlock b.block_number_l2 bs × Differ bs

pub NoBlock-delete_block :
    (j k : ℕ) (bs : List StoredBlock) → NoBlock j bs → NoBlock j (delete_block k bs)
unfolding delete_block
NoBlock-delete_block j k [] gone = tt
NoBlock-delete_block j k (b ∷ bs) (ne, gone) = elim (Bool-cases (b.block_number_l2 == k)) [
  | inl t ↦ rw t gone
  | inr f ↦ rw f (ne, NoBlock-delete_block j k bs gone)
]

pub Differ-delete_block : (k : ℕ) (bs : List StoredBlock) → Differ bs → Differ (delete_block k bs)
unfolding delete_block
Differ-delete_block k [] differ = tt
Differ-delete_block k (b ∷ bs) (gone, differ) = elim (Bool-cases (b.block_number_l2 == k)) [
  | inl t ↦ rw t differ
  | inr f ↦ rw f (NoBlock-delete_block b.block_number_l2 k bs gone, Differ-delete_block k bs differ)
]

pub delete_block-NoBlock :
    (k : ℕ) (bs : List StoredBlock) → Differ bs → NoBlock k (delete_block k bs)
unfolding delete_block
delete_block-NoBlock k [] differ = tt
delete_block-NoBlock k (b ∷ bs) (gone, differ) = elim (Bool-cases (b.block_number_l2 == k)) [
  | inl t ↦ rw t (subst (λ n. NoBlock n bs) (==→eq b.block_number_l2 k t) gone)
  | inr f ↦ rw f (==→ne b.block_number_l2 k f, delete_block-NoBlock k bs differ)
]

pub delete_block-Among :
    (k : ℕ) (b : StoredBlock) (bs : List StoredBlock) → Among b (delete_block k bs) → Among b bs
unfolding delete_block
delete_block-Among k b [] among = among
delete_block-Among k b (x ∷ xs) among = elim (Bool-cases (x.block_number_l2 == k)) [
  | inl t ↦ inr (rw t at among)
  | inr f ↦
      let among' : Among b (x ∷ delete_block k xs) = rw f at among in
      elim among' [ inl e ↦ inl e | inr later ↦ inr (delete_block-Among k b xs later) ]
]

pub NoBlock-Among :
    (k : ℕ) (b : StoredBlock) (bs : List StoredBlock)
    → NoBlock k bs
    → Among b bs
    → b.block_number_l2 ≢ k
NoBlock-Among k b [] gone among = absurd among
NoBlock-Among k b (x ∷ xs) (ne, gone) (inl e) =
    λ f. ne (ap (λ (y : StoredBlock). y.block_number_l2) e ∙ f)
NoBlock-Among k b (x ∷ xs) (ne, gone) (inr later) = NoBlock-Among k b xs gone later
