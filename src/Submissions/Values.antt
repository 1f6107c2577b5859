-- ===== src/Submissions/Values.antt =====
-- Values that two transactions share, and the documents that
-- `deleteDuplicateCommitmentsAndNullifiersFromMemPool` of
-- nightfall-optimist/src/services/database.mjs deletes.
use nightfall.Common.{
  Among, ℕ, ◌≡◌, ◌≢◌, refl, sym, ap, subst, ◌∙◌, ◌⊎◌, inl, inr, List, [], ◌∷◌, Bool, true, false,
  ◌&&◌, ◌||◌, Bool-cases, ◌==◌, ==→eq, ==→ne, ne→==,
}
use nightfall.BlockAssembler.Mempool.{Transaction, Pooled, Pool, is_in}
use nightfall.BlockAssembler.Members.{is_in-Among, Among-is_in}
use nightfall.BlockChecks.Duplicates.{nonzero}
use nightfall.Rollback.Validate.{any_in}
use nightfall.TransactionChecks.Documents.{Kind, commitment, nullifier, values}
use nightfall.Submissions.Handler.{is_duplicate, delete_duplicates, has_id}

pub or_either : (a b : Bool) → (a || b) ≡ true → (a ≡ true) ⊎ (b ≡ true)
or_either true b h = inl refl
or_either false b h = inr h

or_left : (a b : Bool) → a ≡ true → (a || b) ≡ true
or_left a b h = rw h refl

or_right : (a b : Bool) → b ≡ true → (a || b) ≡ true
or_right true b h = refl
or_right false b h = h

any_in-Among : (list vs : List ℕ) (v : ℕ) → Among v list → Among v vs → any_in list vs ≡ true
unfolding any_in
any_in-Among list [] v p q = absurd q
any_in-Among list (x ∷ xs) v p (inl e) =
    or_left (is_in list x) (any_in list xs)
      (is_in-Among x list (subst (λ n. Among n list) (sym e) p))
any_in-Among list (x ∷ xs) v p (inr later) =
    or_right (is_in list x) (any_in list xs) (any_in-Among list xs v p later)

any_in-shared : (list vs : List ℕ) → any_in list vs ≡ true → (v : ℕ) × Among v list × Among v vs
unfolding any_in
any_in-shared list [] h = absurd (cc h)
any_in-shared list (x ∷ xs) h = elim (or_either (is_in list x) (any_in list xs) h) [
  | inl t ↦ (x, Among-is_in x list t, inl refl)
  | inr t ↦ let (v, p, q) = any_in-shared list xs t in (v, p, inr q)
]

nonzero-has : (v : ℕ) (vs : List ℕ) → v ≢ 0 → Among v vs → Among v (nonzero vs)
unfolding nonzero
nonzero-has v [] ne among = absurd among
nonzero-has v (x ∷ xs) ne (inl e) = rw (ne→== x 0 (λ f. ne (sym e ∙ f))) (inl e)
nonzero-has v (x ∷ xs) ne (inr later) = elim (Bool-cases (x == 0)) [
  | inl t ↦ rw t (nonzero-has v xs ne later)
  | inr f ↦ rw f (inr (nonzero-has v xs ne later))
]

nonzero-from : (v : ℕ) (vs : List ℕ) → Among v (nonzero vs) → Among v vs × (v ≢ 0)
unfolding nonzero
nonzero-from v [] among = absurd among
nonzero-from v (x ∷ xs) among = elim (Bool-cases (x == 0)) [
  | inl t ↦ let (there, ne) = nonzero-from v xs (rw t at among) in (inr there, ne)
  | inr f ↦
      let among' : Among v (x ∷ nonzero xs) = rw f at among in
      elim among' [
        | inl e ↦ (inl e, λ z. ==→ne x 0 f (e ∙ z))
        | inr later ↦ let (there, ne) = nonzero-from v xs later in (inr there, ne)
      ]
]

-- The duplicates of a transaction.
abbrev pub duplicates : Transaction → Pooled → Bool
duplicates tx = is_duplicate (nonzero tx.commitments) (nonzero tx.nullifiers)

-- A document of the mempool that shares a value other than zero is a duplicate.
pub is_duplicate-shares :
    (tx : Transaction) (d : Pooled) (kind : Kind) (v : ℕ)
    → v ≢ 0
    → Among v (values kind tx)
    → Among v (values kind d.transaction)
    → d.mempool ≡ true
    → duplicates tx d ≡ true
unfolding is_duplicate
is_duplicate-shares tx d commitment v ne p q pooled =
    rw
      (
        any_in-Among (nonzero tx.commitments) d.transaction.commitments v
            (nonzero-has v tx.commitments ne p) q,
        pooled,
      )
      refl
is_duplicate-shares tx d nullifier v ne p q pooled =
    rw
      (
        any_in-Among (nonzero tx.nullifiers) d.transaction.nullifiers v
            (nonzero-has v tx.nullifiers ne p) q,
        or_right (any_in (nonzero tx.commitments) d.transaction.commitments) true refl,
        pooled,
      )
      refl

abbrev pub Shares : Transaction → Pooled → Type 0
Shares tx d =
    (kind : Kind) × (v : ℕ) × (v ≢ 0)
    × Among v (values kind tx)
    × Among v (values kind d.transaction)

-- A duplicate is in the mempool and shares a value.
pub is_duplicate-Shares :
    (tx : Transaction) (d : Pooled) → duplicates tx d ≡ true → (d.mempool ≡ true) × Shares tx d
unfolding is_duplicate
is_duplicate-Shares tx d h =
    let (shared, pooled) =
      both
        (any_in (nonzero tx.commitments) d.transaction.commitments
          || any_in (nonzero tx.nullifiers) d.transaction.nullifiers)
        d.mempool h in
    (
      pooled,
      elim (or_either (any_in (nonzero tx.commitments) d.transaction.commitments)
          (any_in (nonzero tx.nullifiers) d.transaction.nullifiers) shared) [
            | inl t ↦
                let (v, p, q) =
                  any_in-shared (nonzero tx.commitments) d.transaction.commitments t in
                let (there, ne) = nonzero-from v tx.commitments p in (commitment, v, ne, there, q)
            | inr t ↦
                let (v, p, q) = any_in-shared (nonzero tx.nullifiers) d.transaction.nullifiers t in
                let (there, ne) = nonzero-from v tx.nullifiers p in (nullifier, v, ne, there, q)
          ],
    )
  where
    both : (a b : Bool) → (a && b) ≡ true → (a ≡ true) × (b ≡ true)
    both true b h = (refl, h)
    both false b h = absurd (cc h)

module _ (commitments nullifiers : List ℕ) where
  pub delete_duplicates-Among :
      (pool : Pool) (d : Pooled)
      → Among d (delete_duplicates commitments nullifiers pool)
      → Among d pool × (is_duplicate commitments nullifiers d ≡ false)
  unfolding delete_duplicates
  delete_duplicates-Among [] d among = absurd among
  delete_duplicates-Among (x ∷ xs) d among =
      elim (Bool-cases (is_duplicate commitments nullifiers x)) [
        | inl t ↦ let (there, f) = delete_duplicates-Among xs d (rw t at among) in (inr there, f)
        | inr f ↦
            let among' : Among d (x ∷ delete_duplicates commitments nullifiers xs) =
              rw f at among in
            elim among' [
              | inl e ↦
                  (inl e, subst (λ (y : Pooled). is_duplicate commitments nullifiers y ≡ false) e f)
              | inr later ↦ let (there, g) = delete_duplicates-Among xs d later in (inr there, g)
            ]
      ]

  pub delete_duplicates-keeps :
      (pool : Pool) (d : Pooled)
      → Among d pool
      → is_duplicate commitments nullifiers d ≡ false
      → Among d (delete_duplicates commitments nullifiers pool)
  unfolding delete_duplicates
  delete_duplicates-keeps [] d among f = absurd among
  delete_duplicates-keeps (x ∷ xs) d (inl e) f =
      rw (ap (is_duplicate commitments nullifiers) e ∙ f) (inl e)
  delete_duplicates-keeps (x ∷ xs) d (inr later) f =
      elim (Bool-cases (is_duplicate commitments nullifiers x)) [
        | inl t ↦ rw t (delete_duplicates-keeps xs d later f)
        | inr g ↦ rw g (inr (delete_duplicates-keeps xs d later f))
      ]

pub has_id-Among :
    (hash : ℕ) (pool : Pool)
    → has_id hash pool ≡ true
    → (d : Pooled) × Among d pool × (d.transaction.transaction_hash ≡ hash)
unfolding has_id
has_id-Among hash [] h = absurd (cc h)
has_id-Among hash (x ∷ xs) h =
    elim (or_either (x.transaction.transaction_hash == hash) (has_id hash xs) h) [
      | inl t ↦ (x, inl refl, ==→eq x.transaction.transaction_hash hash t)
      | inr t ↦ let (d, there, e) = has_id-Among hash xs t in (d, inr there, e)
    ]
