-- ===== src/Rollback/Shared.antt =====
-- The transactions that `rollbackEventHandler` of nightfall-optimist/src/event-handlers/rollback.mjs takes
-- back into the mempool do not conflict, and none is lost.
use nightfall.Common.{
  Among, subst, ℕ, ◌≡◌, ◌≢◌, refl, sym, ◌∙◌, subst, inl, inr, List, [], ◌∷◌, ◌++◌, Bool, true,
  false, not, ◌&&◌, ◌||◌, ◌==◌, Bool-cases, eq→==,
}
use nightfall.BlockAssembler.Mempool.{Transaction, is_in}
use nightfall.BlockChecks.Duplicates.{nonzero}
use nightfall.Rollback.Validate.{Seen, any_in, accepts, push, validate, nothing_seen}

abbrev NotOneOf : ℕ → List ℕ → Type 0
NotOneOf w [] = Unit {0}
NotOneOf w (v ∷ vs) = (v ≢ w) × NotOneOf w vs

-- No value of the first list is in the second.
abbrev Apart : List ℕ → List ℕ → Type 0
Apart vs [] = Unit {0}
Apart vs (w ∷ ws) = NotOneOf w vs × Apart vs ws

-- No later transaction has a nonzero value of an earlier one.
abbrev AllApart : (Transaction → List ℕ) → List ℕ → List Transaction → Type 0
AllApart field vs [] = Unit {0}
AllApart field vs (tx ∷ txs) = Apart vs (field tx) × AllApart field vs txs

abbrev pub NoConflict : (Transaction → List ℕ) → List Transaction → Type 0
NoConflict field [] = Unit {0}
NoConflict field (tx ∷ txs) = AllApart field (nonzero (field tx)) txs × NoConflict field txs

or_false : (a b : Bool) → (a || b) ≡ false → (a ≡ false) × (b ≡ false)
or_false true b h = absurd (cc)
or_false false b h = (refl, h)

is_in-NotOneOf : (w : ℕ) (vs : List ℕ) → is_in vs w ≡ false → NotOneOf w vs
unfolding is_in
is_in-NotOneOf w [] h = tt
is_in-NotOneOf w (v ∷ vs) h =
    let (first, rest) = or_false (v == w) (is_in vs w) h in
    ((λ e. absurd (cc (sym first ∙ eq→== v w e))), is_in-NotOneOf w vs rest)

any_in-Apart : (vs ws : List ℕ) → any_in vs ws ≡ false → Apart vs ws
unfolding any_in
any_in-Apart vs [] h = tt
any_in-Apart vs (w ∷ ws) h =
    let (first, rest) = or_false (is_in vs w) (any_in vs ws) h in
    (is_in-NotOneOf w vs first, any_in-Apart vs ws rest)

is_in-append :
    (w : ℕ) (xs ys : List ℕ)
    → is_in (xs ++ ys) w ≡ false
    → (is_in xs w ≡ false) × (is_in ys w ≡ false)
unfolding is_in
is_in-append w [] ys h = (refl, h)
is_in-append w (x ∷ xs) ys h =
    let (first, rest) = or_false (x == w) (is_in (xs ++ ys) w) h in
    let (left_part, right_part) = is_in-append w xs ys rest in (rw first left_part, right_part)

any_in-append :
    (xs ys ws : List ℕ)
    → any_in (xs ++ ys) ws ≡ false
    → (any_in xs ws ≡ false) × (any_in ys ws ≡ false)
unfolding any_in
any_in-append xs ys [] h = (refl, refl)
any_in-append xs ys (w ∷ ws) h =
    let (first, rest) = or_false (is_in (xs ++ ys) w) (any_in (xs ++ ys) ws) h in
    let (in_xs, in_ys) = is_in-append w xs ys first in
    let (any_xs, any_ys) = any_in-append xs ys ws rest in (rw in_xs any_xs, rw in_ys any_ys)

module _ (field : Transaction → List ℕ) where
  -- No transaction has a value of the list.
  abbrev Outside : List ℕ → List Transaction → Type 0
  Outside list [] = Unit {0}
  Outside list (tx ∷ txs) = (any_in list (field tx) ≡ false) × Outside list txs

  Outside-append :
      (xs ys : List ℕ) (txs : List Transaction)
      → Outside (xs ++ ys) txs
      → Outside xs txs × Outside ys txs
  Outside-append xs ys [] h = (tt, tt)
  Outside-append xs ys (tx ∷ txs) (one, rest) =
      let (in_xs, in_ys) = any_in-append xs ys (field tx) one in
      let (all_xs, all_ys) = Outside-append xs ys txs rest in ((in_xs, all_xs), (in_ys, all_ys))

  Outside-AllApart : (vs : List ℕ) (txs : List Transaction) → Outside vs txs → AllApart field vs txs
  Outside-AllApart vs [] h = tt
  Outside-AllApart vs (tx ∷ txs) (one, rest) =
      (any_in-Apart vs (field tx) one, Outside-AllApart vs txs rest)

  module _ (list : Seen → List ℕ)
      (grows : (seen : Seen) (tx : Transaction)
        → list (push seen tx) ≡ list seen ++ nonzero (field tx))
      (check_transaction : Transaction → Bool)
      (guards : (seen : Seen) (tx : Transaction)
        → accepts check_transaction seen tx ≡ true
        → any_in (list seen) (field tx) ≡ false) where
    split_seen :
        (seen : Seen) (tx : Transaction) (txs : List Transaction)
        → Outside (list (push seen tx)) txs
        → Outside (list seen) txs × Outside (nonzero (field tx)) txs
    split_seen seen tx txs h =
        Outside-append (list seen) (nonzero (field tx)) txs
          (subst (λ l. Outside l txs) (grows seen tx) h)

    validate-Outside :
        (seen : Seen) (txs : List Transaction)
        → Outside (list seen) (validate check_transaction seen txs).valid_transactions
    unfolding validate
    validate-Outside seen [] = tt
    validate-Outside seen (tx ∷ txs) = elim (Bool-cases (accepts check_transaction seen tx)) [
      | inl t ↦
          rw t (guards seen tx t, (split_seen seen tx _ (validate-Outside (push seen tx) txs)).0)
      | inr f ↦ rw f (validate-Outside seen txs)
    ]

    validate-NoConflict_of :
        (seen : Seen) (txs : List Transaction)
        → NoConflict field (validate check_transaction seen txs).valid_transactions
    unfolding validate
    validate-NoConflict_of seen [] = tt
    validate-NoConflict_of seen (tx ∷ txs) = elim (Bool-cases (accepts check_transaction seen tx)) [
      | inl t ↦ rw t (
        Outside-AllApart (nonzero (field tx)) _
            (split_seen seen tx _ (validate-Outside (push seen tx) txs)).1,
        validate-NoConflict_of (push seen tx) txs,
      )
      | inr f ↦ rw f (validate-NoConflict_of seen txs)
    ]

accepts_guards :
    (check_transaction : Transaction → Bool) (seen : Seen) (tx : Transaction)
    → accepts check_transaction seen tx ≡ true
    → (any_in seen.commitments_list tx.commitments ≡ false)
      × (any_in seen.nullifiers_list tx.nullifiers ≡ false)
unfolding accepts
accepts_guards check_transaction seen tx h =
    guard_values (check_transaction tx) (any_in seen.commitments_list tx.commitments)
      (any_in seen.nullifiers_list tx.nullifiers) h
  where
    guard_values : (a b c : Bool) → (a && not b && not c) ≡ true → (b ≡ false) × (c ≡ false)
    guard_values true true c h = absurd (cc)
    guard_values true false true h = absurd (cc)
    guard_values true false false h = (refl, refl)
    guard_values false b c h = absurd (cc)

-- Whatever the check of a transaction says, no transaction of a block that goes back to the
-- mempool has a commitment or a nullifier, other than zero, of an earlier one of that block that
-- does.
pub validate-NoConflict :
    (check_transaction : Transaction → Bool) (txs : List Transaction)
    → NoConflict
        (λ (tx : Transaction). tx.commitments)
        (validate check_transaction nothing_seen txs).valid_transactions
      × NoConflict
          (λ (tx : Transaction). tx.nullifiers)
          (validate check_transaction nothing_seen txs).valid_transactions
validate-NoConflict check_transaction txs = (
  validate-NoConflict_of (λ (tx : Transaction). tx.commitments) (λ (s : Seen). s.commitments_list)
      (λ s tx. refl) check_transaction (λ s tx h. (accepts_guards check_transaction s tx h).0)
      nothing_seen txs,
  validate-NoConflict_of (λ (tx : Transaction). tx.nullifiers) (λ (s : Seen). s.nullifiers_list)
      (λ s tx. refl) check_transaction (λ s tx h. (accepts_guards check_transaction s tx h).1)
      nothing_seen txs,
)

-- The third list has the elements of the other two, each in its order.
pub data Merged : List Transaction → List Transaction → List Transaction → Type 0 where
  all_done : Merged [] [] []
  is_valid :
      (tx : Transaction) {xs ys zs : List Transaction}
      → Merged xs ys zs
      → Merged (tx ∷ xs) ys (tx ∷ zs)
  is_invalid :
      (tx : Transaction) {xs ys zs : List Transaction}
      → Merged xs ys zs
      → Merged xs (tx ∷ ys) (tx ∷ zs)

-- Every transaction of the block is either taken back or deleted, in the order of the block.
pub validate-Merged :
    (check_transaction : Transaction → Bool) (seen : Seen) (txs : List Transaction)
    → Merged
        (validate check_transaction seen txs).valid_transactions
        (validate check_transaction seen txs).invalid_transactions
        txs
unfolding validate
validate-Merged check_transaction seen [] = all_done
validate-Merged check_transaction seen (tx ∷ txs) =
    elim (Bool-cases (accepts check_transaction seen tx)) [
      | inl t ↦ rw t (is_valid tx (validate-Merged check_transaction (push seen tx) txs))
      | inr f ↦ rw f (is_invalid tx (validate-Merged check_transaction seen txs))
    ]

-- What is taken back passes its check.
pub validate-passes :
    (check_transaction : Transaction → Bool) (seen : Seen) (txs : List Transaction)
    (tx : Transaction)
    → Among tx (validate check_transaction seen txs).valid_transactions
    → check_transaction tx ≡ true
unfolding validate accepts
validate-passes check_transaction seen [] tx among = absurd among
validate-passes check_transaction seen (x ∷ txs) tx among =
    elim (Bool-cases (accepts check_transaction seen x)) [
      | inr f ↦ validate-passes check_transaction seen txs tx (rw f at among)
      | inl t ↦
          let among' : Among tx
              (x ∷ (validate check_transaction (push seen x) txs).valid_transactions) =
            rw t at among in
          elim among' [
            | inl e ↦
                subst (λ y. check_transaction y ≡ true) e
                  (first (check_transaction x) (not (any_in seen.commitments_list x.commitments))
                    (not (any_in seen.nullifiers_list x.nullifiers)) t)
            | inr later ↦ validate-passes check_transaction (push seen x) txs tx later
          ]
    ]
  where
    first : (a b c : Bool) → (a && b && c) ≡ true → a ≡ true
    first true b c h = refl
    first false b c h = absurd (cc h)
