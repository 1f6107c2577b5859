-- ===== src/ProposedBlocks/Unique.antt =====
-- The `_id` of every document under the calls of
-- nightfall-optimist/src/event-handlers/block-proposed.mjs.
use nightfall.Common.{
  Among, ℕ, ◌≡◌, ◌≢◌, refl, sym, ap, ◌∙◌, inl, inr, List, [], ◌∷◌, ◌++◌, Bool, true, false, not,
  ◌&&◌, ◌||◌, Bool-cases, ◌==◌, ==→ne, eq→==, ne→==,
}
use nightfall.BlockAssembler.Mempool.{Transaction, Pooled, Pool, is_in}
use nightfall.Submissions.Handler.{is_duplicate, has_id}
use nightfall.ProposedBlocks.Handler.{
  Stage, saving, reading, updating, returned, rejected, update_transaction, in_block, advance,
  delete_duplicates_but,
}

-- No two documents have the same hash, which is their `_id`.
abbrev pub UniqueHashes : Pool → Type 0
UniqueHashes [] = Unit {0}
UniqueHashes (d ∷ ds) = (has_id d.transaction.transaction_hash ds ≡ false) × UniqueHashes ds

has_id-update_transaction :
    (h hash n : ℕ) (pool : Pool) → has_id h (update_transaction hash n pool) ≡ has_id h pool
unfolding has_id update_transaction
has_id-update_transaction h hash n [] = refl
has_id-update_transaction h hash n (d ∷ ds) =
    elim (Bool-cases (d.transaction.transaction_hash == hash)) [
      | inl t ↦ rw t refl
      | inr f ↦ rw f (
          ap (λ b. d.transaction.transaction_hash == h || b)
            (has_id-update_transaction h hash n ds))
    ]

update_transaction-UniqueHashes :
    (hash n : ℕ) (pool : Pool) → UniqueHashes pool → UniqueHashes (update_transaction hash n pool)
unfolding update_transaction
update_transaction-UniqueHashes hash n [] u = tt
update_transaction-UniqueHashes hash n (d ∷ ds) (fresh, u) =
    elim (Bool-cases (d.transaction.transaction_hash == hash)) [
      | inl t ↦ rw t (fresh, u)
      | inr f ↦ rw f (
        has_id-update_transaction d.transaction.transaction_hash hash n ds ∙ fresh,
        update_transaction-UniqueHashes hash n ds u,
      )
    ]

neither : (a b : Bool) → (a || b) ≡ false → (a ≡ false) × (b ≡ false)
neither true b h = absurd (cc h)
neither false b h = (refl, h)

has_id-append :
    (h : ℕ) (pool : Pool) (d : Pooled)
    → has_id h pool ≡ false
    → d.transaction.transaction_hash ≢ h
    → has_id h (pool ++ (d ∷ [])) ≡ false
unfolding has_id
has_id-append h [] d fresh ne = rw (ne→== _ _ ne) refl
has_id-append h (x ∷ xs) d fresh ne =
    let (f, g) = neither (x.transaction.transaction_hash == h) (has_id h xs) fresh in
    rw f (has_id-append h xs d g ne)

append-UniqueHashes :
    (pool : Pool) (d : Pooled)
    → has_id d.transaction.transaction_hash pool ≡ false
    → UniqueHashes pool
    → UniqueHashes (pool ++ (d ∷ []))
unfolding has_id
append-UniqueHashes [] d fresh u = (refl, tt)
append-UniqueHashes (x ∷ xs) d fresh (new, u) =
    let (f, g) =
      neither (x.transaction.transaction_hash == d.transaction.transaction_hash)
        (has_id d.transaction.transaction_hash xs) fresh in
    (
      has_id-append x.transaction.transaction_hash xs d new (λ e. ==→ne _ _ f (sym e)),
      append-UniqueHashes xs d g u,
    )

pub advance-UniqueHashes :
    (n : ℕ) (tx : Transaction) (s : Stage) (pool : Pool)
    → UniqueHashes pool
    → UniqueHashes (advance n tx s pool).1
unfolding advance
advance-UniqueHashes n tx saving pool u = elim (Bool-cases (has_id tx.transaction_hash pool)) [
  | inl t ↦ rw t u
  | inr f ↦ rw f (append-UniqueHashes pool (in_block n tx) f u)
]
advance-UniqueHashes n tx reading pool u = u
advance-UniqueHashes n tx updating pool u =
    update_transaction-UniqueHashes tx.transaction_hash n pool u
advance-UniqueHashes n tx returned pool u = u
advance-UniqueHashes n tx rejected pool u = u

module _ (cs ns spared : List ℕ) where
  has_id-delete_duplicates_but :
      (h : ℕ) (pool : Pool)
      → has_id h pool ≡ false
      → has_id h (delete_duplicates_but cs ns spared pool) ≡ false
  unfolding has_id delete_duplicates_but
  has_id-delete_duplicates_but h [] fresh = refl
  has_id-delete_duplicates_but h (x ∷ xs) fresh =
      let (f, g) = neither (x.transaction.transaction_hash == h) (has_id h xs) fresh in
      elim (Bool-cases
        (is_duplicate cs ns x && not (is_in spared x.transaction.transaction_hash))) [
          | inl t ↦ rw t (has_id-delete_duplicates_but h xs g)
          | inr k ↦ rw (k, f) (has_id-delete_duplicates_but h xs g)
        ]

  pub delete_duplicates_but-UniqueHashes :
      (pool : Pool) → UniqueHashes pool → UniqueHashes (delete_duplicates_but cs ns spared pool)
  unfolding delete_duplicates_but
  delete_duplicates_but-UniqueHashes [] u = tt
  delete_duplicates_but-UniqueHashes (x ∷ xs) (fresh, u) =
      elim (Bool-cases
        (is_duplicate cs ns x && not (is_in spared x.transaction.transaction_hash))) [
          | inl t ↦ rw t (delete_duplicates_but-UniqueHashes xs u)
          | inr f ↦ rw f (
            has_id-delete_duplicates_but x.transaction.transaction_hash xs fresh,
            delete_duplicates_but-UniqueHashes xs u,
          )
        ]

has_id-here :
    (d : Pooled) (pool : Pool) → Among d pool → has_id d.transaction.transaction_hash pool ≡ true
unfolding has_id
has_id-here d [] among = absurd among
has_id-here d (x ∷ xs) (inl e) =
    rw (eq→== _ _ (ap (λ (y : Pooled). y.transaction.transaction_hash) e)) refl
has_id-here d (x ∷ xs) (inr later) =
    or_true (x.transaction.transaction_hash == d.transaction.transaction_hash)
      (has_id-here d xs later)
  where
    or_true : (a : Bool) → {b : Bool} → b ≡ true → (a || b) ≡ true
    or_true true h = refl
    or_true false h = h

-- Documents with the same hash are the same.
pub UniqueHashes-same :
    (pool : Pool) (d e : Pooled)
    → UniqueHashes pool
    → Among d pool
    → Among e pool
    → d.transaction.transaction_hash ≡ e.transaction.transaction_hash
    → d ≡ e
UniqueHashes-same [] d e u p q s = absurd p
UniqueHashes-same (x ∷ xs) d e (fresh, u) (inl p) (inl q) s = sym p ∙ q
UniqueHashes-same (x ∷ xs) d e (fresh, u) (inl p) (inr q) s = absurd (
    cc (
      sym (has_id-here e xs q)
      ∙ (ap (λ h. has_id h xs) (sym s ∙ sym (ap (λ (y : Pooled). y.transaction.transaction_hash) p))
          ∙ fresh)))
UniqueHashes-same (x ∷ xs) d e (fresh, u) (inr p) (inl q) s = absurd (
    cc (
      sym (has_id-here d xs p)
      ∙ (ap (λ h. has_id h xs) (s ∙ sym (ap (λ (y : Pooled). y.transaction.transaction_hash) q))
          ∙ fresh)))
UniqueHashes-same (x ∷ xs) d e (fresh, u) (inr p) (inr q) s = UniqueHashes-same xs d e u p q s
