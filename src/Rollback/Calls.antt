-- ===== src/Rollback/Calls.antt =====
-- What the calls of the database that `rollbackEventHandler` of
-- nightfall-optimist/src/event-handlers/rollback.mjs makes do to the transactions, in any order.
use nightfall.Common.{
  Among, Among-map, Among-map_from, ℕ, ◌≡◌, refl, sym, ap, subst, ◌∙◌, ◌⊎◌, inl, inr, some, none,
  List, [], ◌∷◌, map, Bool, true, false, ◌&&◌,
}
use nightfall.BlockAssembler.Mempool.{
  Transaction, Pooled, is_in, return_to, add_transactions_to_mempool,
}
use nightfall.Rollback.Handler.{
  Collections, is_at, DatabaseCall, deletion, return_to_mempool, removal, take_effect,
  all_take_effect,
}
use nightfall.Rollback.Returned.{
  return_to-at, return_to-elsewhere, return_to-transaction, is_at_lem, return_to-either,
  return_to-returns, delete_transactions-Among, delete_transactions-keeps,
}

-- The call leaves a document of a block alone.
abbrev pub Spares : Pooled → ℕ → DatabaseCall → Type 0
Spares d m (deletion hashes) = is_in hashes d.transaction.transaction_hash ≡ false
Spares d m (return_to_mempool hashes number) =
    number ≡ m → is_in hashes d.transaction.transaction_hash ≡ false
Spares d m (removal number) = Unit {0}

left_out :
    (hashes : List ℕ) (number m : ℕ) (d : Pooled)
    → (is_in hashes d.transaction.transaction_hash && is_at number d) ≡ false
    → d.block_number_l2 ≡ some m
    → number ≡ m
    → is_in hashes d.transaction.transaction_hash ≡ false
left_out hashes number m d h e same =
    alone (is_in hashes d.transaction.transaction_hash) (is_at number d) h
      (subst (λ k. is_at k d ≡ true) (sym same) (is_at_lem d m e))
  where
    alone : (a b : Bool) → (a && b) ≡ false → b ≡ true → a ≡ false
    alone true b h t = absurd (cc (sym h ∙ t))
    alone false b h t = refl

take_effect-at :
    (c : DatabaseCall) (db : Collections) (d : Pooled) (m : ℕ)
    → Among d (take_effect c db).transactions
    → d.block_number_l2 ≡ some m
    → Among d db.transactions × Spares d m c
unfolding take_effect add_transactions_to_mempool
take_effect-at (deletion hashes) db d m among h =
    delete_transactions-Among hashes db.transactions d among
take_effect-at (return_to_mempool hashes number) db d m among h =
    let (x, in_pool, e) = Among-map_from (return_to hashes number) d db.transactions among in
    let (same, untouched) =
      return_to-at hashes number x m (ap (λ (y : Pooled). y.block_number_l2) e ∙ h) in
    let is_x : x ≡ d = sym same ∙ e in
    (
      subst (λ (y : Pooled). Among y db.transactions) is_x in_pool,
      left_out hashes number m d
          (subst
            (λ (y : Pooled).
              (is_in hashes y.transaction.transaction_hash && is_at number y) ≡ false)
            is_x untouched)
          h,
    )
take_effect-at (removal number) db d m among h = (among, tt)

-- What is in a block after all calls was there before, and every call left it alone.
pub all_take_effect-at :
    (cs : List DatabaseCall) (db : Collections) (d : Pooled) (m : ℕ)
    → Among d (all_take_effect cs db).transactions
    → d.block_number_l2 ≡ some m
    → Among d db.transactions × ((c : DatabaseCall) → Among c cs → Spares d m c)
unfolding all_take_effect
all_take_effect-at [] db d m among h = (among, λ c nowhere. absurd nowhere)
all_take_effect-at (x ∷ cs) db d m among h =
    let (between, later) = all_take_effect-at cs (take_effect x db) d m among h in
    let (before, first) = take_effect-at x db d m between h in
    (
      before,
      λ c there. elim there [
        | inl this ↦ subst (Spares d m) this first
        | inr other ↦ later c other
      ],
    )

-- The call does not touch a document.
abbrev pub Passes : Pooled → DatabaseCall → Type 0
Passes d (deletion hashes) = is_in hashes d.transaction.transaction_hash ≡ false
Passes d (return_to_mempool hashes number) = is_at number d ≡ false
Passes d (removal number) = Unit {0}

take_effect-keeps :
    (c : DatabaseCall) (db : Collections) (d : Pooled)
    → Among d db.transactions
    → Passes d c
    → Among d (take_effect c db).transactions
unfolding take_effect add_transactions_to_mempool
take_effect-keeps (deletion hashes) db d among p =
    delete_transactions-keeps hashes db.transactions d among p
take_effect-keeps (return_to_mempool hashes number) db d among p =
    subst (λ (y : Pooled). Among y (map (return_to hashes number) db.transactions))
      (return_to-elsewhere hashes number d p)
      (Among-map (return_to hashes number) d db.transactions among)
take_effect-keeps (removal number) db d among p = among

pub all_take_effect-keeps :
    (cs : List DatabaseCall) (db : Collections) (d : Pooled)
    → Among d db.transactions
    → ((c : DatabaseCall) → Among c cs → Passes d c)
    → Among d (all_take_effect cs db).transactions
unfolding all_take_effect
all_take_effect-keeps [] db d among passes = among
all_take_effect-keeps (c ∷ cs) db d among passes =
    all_take_effect-keeps cs (take_effect c db) d
      (take_effect-keeps c db d among (passes c (inl refl))) (λ x there. passes x (inr there))

-- A document comes from one with the same transaction.
take_effect-old :
    (c : DatabaseCall) (db : Collections) (d : Pooled)
    → Among d (take_effect c db).transactions
    → (x : Pooled) × Among x db.transactions × (x.transaction ≡ d.transaction)
unfolding take_effect add_transactions_to_mempool
take_effect-old (deletion hashes) db d among =
    (d, (delete_transactions-Among hashes db.transactions d among).0, refl)
take_effect-old (return_to_mempool hashes number) db d among =
    let (x, in_pool, e) = Among-map_from (return_to hashes number) d db.transactions among in
    (x, in_pool, sym (return_to-transaction hashes number x) ∙ ap (λ (z : Pooled). z.transaction) e)
take_effect-old (removal number) db d among = (d, among, refl)

pub all_take_effect-old :
    (cs : List DatabaseCall) (db : Collections) (d : Pooled)
    → Among d (all_take_effect cs db).transactions
    → (x : Pooled) × Among x db.transactions × (x.transaction ≡ d.transaction)
unfolding all_take_effect
all_take_effect-old [] db d among = (d, among, refl)
all_take_effect-old (c ∷ cs) db d among =
    let (y, there, e) = all_take_effect-old cs (take_effect c db) d among in
    let (x, before, f) = take_effect-old c db y there in (x, before, f ∙ e)

-- No document has a hash that was deleted.
pub all_take_effect-deleted :
    (cs : List DatabaseCall) (db : Collections) (d : Pooled) (hashes : List ℕ)
    → Among (deletion hashes) cs
    → Among d (all_take_effect cs db).transactions
    → is_in hashes d.transaction.transaction_hash ≡ false
unfolding all_take_effect take_effect
all_take_effect-deleted [] db d hashes there among = absurd there
all_take_effect-deleted (c ∷ cs) db d hashes (inl e) among =
    let (x, before, same) = all_take_effect-old cs (take_effect c db) d among in
    let before' : Among x (take_effect (deletion hashes) db).transactions =
      subst (λ k. Among x (take_effect k db).transactions) e before in
    ap (is_in hashes) (ap (λ (tx : Transaction). tx.transaction_hash) (sym same))
    ∙ (delete_transactions-Among hashes db.transactions x before').1
all_take_effect-deleted (c ∷ cs) db d hashes (inr later) among =
    all_take_effect-deleted cs (take_effect c db) d hashes later among

abbrev pub returned : Pooled → Pooled
returned d = record d { mempool = true; block_number_l2 = none }

-- No deletion has the hash of the document.
abbrev pub NotDeleted : Pooled → DatabaseCall → Type 0
NotDeleted d (deletion hashes) = is_in hashes d.transaction.transaction_hash ≡ false
NotDeleted d (return_to_mempool hashes number) = Unit {0}
NotDeleted d (removal number) = Unit {0}

returned-Passes : (d : Pooled) (c : DatabaseCall) → NotDeleted d c → Passes (returned d) c
returned-Passes d (deletion hashes) p = p
returned-Passes d (return_to_mempool hashes number) p = refl
returned-Passes d (removal number) p = tt

take_effect-either :
    (c : DatabaseCall) (db : Collections) (d : Pooled)
    → Among d db.transactions
    → NotDeleted d c
    → Among d (take_effect c db).transactions ⊎ Among (returned d) (take_effect c db).transactions
unfolding take_effect add_transactions_to_mempool
take_effect-either (deletion hashes) db d among p =
    inl (delete_transactions-keeps hashes db.transactions d among p)
take_effect-either (return_to_mempool hashes number) db d among p =
    let there = Among-map (return_to hashes number) d db.transactions among in
    elim (return_to-either hashes number d) [
      | inl e ↦
          inl (
            subst (λ (y : Pooled). Among y (map (return_to hashes number) db.transactions)) e there)
      | inr e ↦
          inr (
            subst (λ (y : Pooled). Among y (map (return_to hashes number) db.transactions)) e there)
    ]
take_effect-either (removal number) db d among p = inl among

-- A document of a block that one of the calls is to return, and none to delete, is returned.
pub all_take_effect-returns :
    (cs : List DatabaseCall) (db : Collections) (d : Pooled) (hashes : List ℕ) (number : ℕ)
    → Among d db.transactions
    → d.block_number_l2 ≡ some number
    → is_in hashes d.transaction.transaction_hash ≡ true
    → Among (return_to_mempool hashes number) cs
    → ((c : DatabaseCall) → Among c cs → NotDeleted d c)
    → Among (returned d) (all_take_effect cs db).transactions
unfolding all_take_effect take_effect add_transactions_to_mempool
all_take_effect-returns [] db d hashes number among e t there spare = absurd there
all_take_effect-returns (c ∷ cs) db d hashes number among e t (inl this) spare =
    all_take_effect-keeps cs (take_effect c db) (returned d)
      (subst (λ k. Among (returned d) (take_effect k db).transactions) (sym this)
        (subst (λ (y : Pooled). Among y (map (return_to hashes number) db.transactions))
          (return_to-returns hashes number d t e)
          (Among-map (return_to hashes number) d db.transactions among)))
      (λ x p. returned-Passes d x (spare x (inr p)))
all_take_effect-returns (c ∷ cs) db d hashes number among e t (inr later) spare =
    elim (take_effect-either c db d among (spare c (inl refl))) [
      | inl still ↦
          all_take_effect-returns cs (take_effect c db) d hashes number still e t later
            (λ x p. spare x (inr p))
      | inr done ↦
          all_take_effect-keeps cs (take_effect c db) (returned d) done
            (λ x p. returned-Passes d x (spare x (inr p)))
    ]
