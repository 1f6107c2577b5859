-- ===== src/TransactionChecks/Free.antt =====
-- What the checks for duplicates in nightfall-optimist/src/services/transaction-checker.mjs let
-- through.
use nightfall.Common.{
  Among, ℕ, suc, ◌≡◌, ◌≢◌, refl, sym, ap, subst, ◌∙◌, inl, inr, Option, none, some, List, [], ◌∷◌,
  Bool, true, false, not, ◌&&◌, Bool-cases, ne→==, ok, through,
}
use nightfall.BlockAssembler.Mempool.{Transaction, Pooled, Pool, is_in}
use nightfall.BlockAssembler.Members.{is_in-Among}
use nightfall.BlockChecks.Check.{Block}
use nightfall.TransactionChecks.Documents.{
  exceeds, World, Kind, values, find_document, get_mempool_transaction, in_other_block,
  get_transaction_l2, stored_block, Options,
}
use nightfall.TransactionChecks.Duplicates.{
  refuse_pooled, refuse_stored, refuse_in_l2, check_in_mempool, check_in_l2, check_value,
  check_values,
}

-- A query that finds nothing matches nothing.
find_document-none :
    (q : Pooled → Bool) (pool : Pool) (d : Pooled)
    → find_document q pool ≡ none
    → Among d pool
    → q d ≢ true
unfolding find_document
find_document-none q [] d h among t = among
find_document-none q (x ∷ xs) d h among t = elim (Bool-cases (q x)) [
  | inl found ↦ let g = rw found at h in absurd (cc g)
  | inr other ↦ elim among [
    | inl e ↦ absurd (cc (sym (ap q e ∙ t) ∙ other))
    | inr later ↦ find_document-none q xs d (rw other at h) later t
  ]
]

-- What it finds is there, and matches.
find_document-some :
    (q : Pooled → Bool) (pool : Pool) (d : Pooled)
    → find_document q pool ≡ some d
    → Among d pool × (q d ≡ true)
unfolding find_document
find_document-some q [] d h = absurd (cc h)
find_document-some q (x ∷ xs) d h = elim (Bool-cases (q x)) [
  | inl found ↦ let same : x ≡ d = some-eq (rw found at h) in (inl same, sym (ap q same) ∙ found)
  | inr other ↦ let (later, t) = find_document-some q xs d (rw other at h) in (inr later, t)
]
  where
    some-eq : {a b : Pooled} → some a ≡ some b → a ≡ b
    some-eq h = cc

-- Every block with a transaction of the collection is in the database.
abbrev pub BlocksStored : World → Type 0
BlocksStored w =
    (d : Pooled) (n : ℕ)
    → Among d w.pool
    → d.block_number_l2 ≡ some n
    → (b : Block) × (w.block_by_number n ≡ some b)

-- No other transaction with a right to the value has it.
pub record Free (w : World) (options : Options) (kind : Kind) (tx : Transaction) (value : ℕ)
    : Type 0 where
  pub in_mempool :
      options.check_duplicates_in_mempool ≡ true
      → (d : Pooled) → Among d w.pool
      → d.mempool ≡ true
      → Among value (values kind d.transaction)
      → exceeds (w.details d.transaction).fee (w.details tx).fee ≡ false
  pub in_l2 :
      options.check_duplicates_in_l2 ≡ true
      → (d : Pooled) (n : ℕ) → Among d w.pool
      → d.block_number_l2 ≡ some n
      → options.transaction_block_number_l2 ≢ some n
      → Among value (values kind d.transaction)
      → ⊥

refuse_pooled-ok :
    (kind : Kind) (v : ℕ) (o : Option Pooled) → refuse_pooled kind v o ≡ ok tt → o ≡ none
refuse_pooled-ok kind v none h = refl
refuse_pooled-ok kind v (some d) h = absurd (cc h)

refuse_stored-ok :
    (kind : Kind) (i : ℕ) (tx : Transaction) (o : Option Block)
    → refuse_stored kind i tx o ≡ ok tt
    → o ≡ none
refuse_stored-ok kind i tx none h = refl
refuse_stored-ok kind i tx (some b) h = absurd (cc h)

-- The number of the block that a query for another block found.
other_number :
    (own number : Option ℕ) → in_other_block own number ≡ true → (n : ℕ) × (number ≡ some n)
other_number own none h = absurd (cc h)
other_number none (some n) h = (n, refl)
other_number (some m) (some n) h = (n, refl)

is_other :
    (own number : Option ℕ) (n : ℕ)
    → number ≡ some n
    → own ≢ some n
    → in_other_block own number ≡ true
is_other own none n e ne = absurd (cc e)
is_other none (some k) n e ne = refl
is_other (some m) (some k) n e ne = ap not (ne→== k m (λ f. ne (ap (λ x. some x) (sym f) ∙ e)))

module _ (w : World) (stored : BlocksStored w) (options : Options) (kind : Kind)
    (tx : Transaction) where
  both : (a b : Bool) → (a && b) ≡ true → (a ≡ true) × (b ≡ true)
  both true true h = (refl, refl)
  both true false h = absurd (cc h)
  both false b h = absurd (cc h)

  -- Nothing is found in another block.
  nothing_in_l2 :
      (i v : ℕ) (o : Option Pooled)
      → get_transaction_l2 w kind v options.transaction_block_number_l2 ≡ o
      → refuse_in_l2 w kind i o ≡ ok tt
      → o ≡ none
  unfolding get_transaction_l2
  nothing_in_l2 i v none same h = refl
  nothing_in_l2 i v (some d) same h =
      let (among, matches) = find_document-some _ w.pool d same in
      let (holds, other) = both (is_in (values kind d.transaction) v) _ matches in
      let (n, is_n) = other_number options.transaction_block_number_l2 d.block_number_l2 other in
      let (b, is_b) = stored d n among is_n in
      let gone = refuse_stored-ok kind i d.transaction (stored_block w d.block_number_l2) h in
      absurd (some_not_none (sym is_b ∙ sym (ap (stored_block w) is_n) ∙ gone))
    where
      some_not_none : {b : Block} → some b ≡ none → ⊥
      some_not_none h = cc

  mempool-Free :
      (v : ℕ)
      → check_in_mempool w options kind tx v ≡ ok tt
      → options.check_duplicates_in_mempool ≡ true
      → (d : Pooled) → Among d w.pool
      → d.mempool ≡ true
      → Among v (values kind d.transaction)
      → exceeds (w.details d.transaction).fee (w.details tx).fee ≡ false
  unfolding check_in_mempool get_mempool_transaction
  mempool-Free v h on d among pooled holds =
      elim (Bool-cases (exceeds (w.details d.transaction).fee (w.details tx).fee)) [
        | inr le ↦ le
        | inl lt ↦ absurd (
            find_document-none _ w.pool d (refuse_pooled-ok kind v _ (rw on at h)) among
              (rw (is_in-Among v (values kind d.transaction) holds, lt, pooled) refl))
      ]

  l2-Free :
      (i v : ℕ)
      → check_in_l2 w options kind i v ≡ ok tt
      → options.check_duplicates_in_l2 ≡ true
      → (d : Pooled) (n : ℕ) → Among d w.pool
      → d.block_number_l2 ≡ some n
      → options.transaction_block_number_l2 ≢ some n
      → Among v (values kind d.transaction)
      → ⊥
  unfolding check_in_l2 get_transaction_l2
  l2-Free i v h on d n among is_n other holds =
      find_document-none _ w.pool d (nothing_in_l2 i v _ refl (rw on at h)) among (
        rw
          (
            is_in-Among v (values kind d.transaction) holds,
            is_other options.transaction_block_number_l2 d.block_number_l2 n is_n other,
          )
          refl)

  check_value-Free :
      (i v : ℕ) → v ≢ 0 → check_value w options kind tx i v ≡ ok tt → Free w options kind tx v
  unfolding check_value
  check_value-Free i v ne h =
      let (u, first, second) =
        through (check_in_mempool w options kind tx v) (λ u. check_in_l2 w options kind i v)
          (rw (ne→== v 0 ne) at h) in
      record { in_mempool = mempool-Free v first; in_l2 = l2-Free i v second }

  pub check_values-Free :
      (i : ℕ) (vs : List ℕ)
      → check_values w options kind tx i vs ≡ ok tt
      → (v : ℕ) → Among v vs
      → v ≢ 0
      → Free w options kind tx v
  unfolding check_values
  check_values-Free i [] h v among ne = absurd among
  check_values-Free i (x ∷ xs) h v among ne =
      let (u, first, rest) =
        through (check_value w options kind tx i x) (λ u. check_values w options kind tx (suc i) xs)
          h in
      elim among [
        | inl e ↦
            subst (Free w options kind tx) e (check_value-Free i x (λ f. ne (sym e ∙ f)) first)
        | inr later ↦ check_values-Free (suc i) xs rest v later ne
      ]
