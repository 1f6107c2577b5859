-- ===== src/Commitments/Reorganise.antt =====
-- Marking documents on chain and clearing them when the chain is reorganised, in
-- nightfall-client/src/services/commitment-storage.mjs.
use nightfall.Common.{
  ℕ, ◌<◌, ◌≡◌, refl, sym, ◌∙◌, Option, none, some, List, [], ◌∷◌, Bool, true, false, ◌&&◌, leb,
  if◌then◌else◌, arith, Bool-cases, inl, inr,
}
use nightfall.Commitments.Store.{
  Stored, Collection, update_many, one_of, is_unset, at_least, mark_on_chain, clear_on_chain,
  mark_nullified_on_chain, clear_nullified_on_chain,
}

-- Before block `b`, or in no block and then `P`.
abbrev Before : ℕ → Type 0 → Option ℕ → Type 0
Before b P none = P
Before b P (some n) = n < b

-- A document that is on chain before block `b`, or on none and without the data of a block.
abbrev pub CommittedBefore : ℕ → Stored → Type 0
CommittedBefore b d =
    Before b ((d.block_number ≡ none) × (d.transaction_hash_committed_l1 ≡ none)) d.is_on_chain

-- The same for the block that spends it.
abbrev pub NullifiedBefore : ℕ → Stored → Type 0
NullifiedBefore b d = Before b (d.transaction_hash_nullified_l1 ≡ none) d.is_nullified_on_chain

abbrev pub Each : (Stored → Type 0) → Collection → Type 0
Each P [] = Unit {0}
Each P (d ∷ ds) = P d × Each P ds

-- An update that takes another back to `v` at every document it changes does so on the collection.
module _ (q q' : Stored → Bool) (u u' v : Stored → Stored) (P : Stored → Type 0)
    (undoes : (d : Stored) → P d → q d ≡ true → (q' (u d) ≡ true) × (u' (u d) ≡ v d))
    (leaves : (d : Stored) → P d → q' d ≡ false) where
  undo_at :
      (d : Stored)
      → P d
      → (let e = if q d then u d else d in if q' e then u' e else e) ≡ (if q d then v d else d)
  undo_at d p = elim (Bool-cases (q d)) [
    | inl t ↦ let (again, same) = undoes d p t in rw (t, again) same
    | inr f ↦ rw (f, leaves d p) refl
  ]

  undo : (ds : Collection) → Each P ds → update_many q' u' (update_many q u ds) ≡ update_many q v ds
  unfolding update_many
  undo [] all = refl
  undo (d ∷ ds) (p, all) = λ i. undo_at d p i ∷ undo ds all i

update_many-same : (q : Stored → Bool) (ds : Collection) → update_many q (λ d. d) ds ≡ ds
unfolding update_many
update_many-same q [] = refl
update_many-same q (d ∷ ds) = λ i. same (q d) i ∷ update_many-same q ds i
  where
    same : (b : Bool) → (if b then d else d) ≡ d
    same true = refl
    same false = refl

both : (a b : Bool) → (a && b) ≡ true → b ≡ true
both true b h = h
both false b h = absurd (cc)

unset-none : (o : Option ℕ) → is_unset o ≡ true → o ≡ none
unset-none none h = refl
unset-none (some n) h = absurd (cc)

leb_self : (n : ℕ) → leb n n ≡ true
leb_self n = ground arith

leb_above : (b n : ℕ) → n < b → leb b n ≡ false
leb_above b n lt = ground arith

Before-at_least : (b : ℕ) (o : Option ℕ) (P : Type 0) → Before b P o → at_least b o ≡ false
Before-at_least b none P before = refl
Before-at_least b (some n) P before = leb_above b n before

unset_data : (b : ℕ) (o : Option ℕ) (P : Type 0) → o ≡ none → Before b P o → P
unset_data b none P e fields = fields
unset_data b (some n) P e fields = absurd (cc)

-- If every document is on chain before block `b`, or in no block and without the data of one, then
-- clearing block `b` undoes marking commitments as of block `b`.
pub clear_on_chain-mark_on_chain :
    (ids : List ℕ) (b block_number hash : ℕ) (ds : Collection)
    → Each (CommittedBefore b) ds
    → clear_on_chain b (mark_on_chain ids b block_number hash ds) ≡ ds
unfolding clear_on_chain mark_on_chain
clear_on_chain-mark_on_chain ids b block_number hash ds all =
    undo (λ d. one_of ids d.id && is_unset d.is_on_chain) (λ d. at_least b d.is_on_chain)
      (λ d. record d {
        is_on_chain = some b;
        block_number = some block_number;
        transaction_hash_committed_l1 = some hash;
      })
      (λ d. record d {
        is_on_chain = none;
        block_number = none;
        transaction_hash_committed_l1 = none;
      })
      (λ d. d) (CommittedBefore b)
      (λ d before t.
        let e = unset-none d.is_on_chain (both (one_of ids d.id) (is_unset d.is_on_chain) t) in
        let (f, g) = unset_data b d.is_on_chain _ e before in
        (
          leb_self b,
          λ i. record d {
            is_on_chain = sym e i;
            block_number = sym f i;
            transaction_hash_committed_l1 = sym g i;
          },
        ))
      (λ d before. Before-at_least b d.is_on_chain _ before) ds all
    ∙ update_many-same (λ d. one_of ids d.id && is_unset d.is_on_chain) ds

-- If every document is nullified before block `b`, or in no block and without the hash of one, then
-- clearing block `b` undoes marking nullifiers as of block `b`, but for the block number of the
-- documents it marked, which is then unset.
pub clear_nullified_on_chain-mark_nullified_on_chain :
    (nullifiers : List ℕ) (b block_number hash : ℕ) (ds : Collection)
    → Each (NullifiedBefore b) ds
    → clear_nullified_on_chain b (mark_nullified_on_chain nullifiers b block_number hash ds)
      ≡ update_many
          (λ d. one_of nullifiers d.nullifier && is_unset d.is_nullified_on_chain)
          (λ d. record d { block_number = none })
          ds
unfolding clear_nullified_on_chain mark_nullified_on_chain
clear_nullified_on_chain-mark_nullified_on_chain nullifiers b block_number hash ds all =
    undo (λ d. one_of nullifiers d.nullifier && is_unset d.is_nullified_on_chain)
      (λ d. at_least b d.is_nullified_on_chain)
      (λ d. record d {
        is_nullified_on_chain = some b;
        block_number = some block_number;
        transaction_hash_nullified_l1 = some hash;
      })
      (λ d. record d {
        is_nullified_on_chain = none;
        block_number = none;
        transaction_hash_nullified_l1 = none;
      })
      (λ d. record d { block_number = none }) (NullifiedBefore b)
      (λ d before t.
        let e =
          unset-none d.is_nullified_on_chain
            (both (one_of nullifiers d.nullifier) (is_unset d.is_nullified_on_chain) t) in
        let g = unset_data b d.is_nullified_on_chain _ e before in
        (
          leb_self b,
          λ i. record d {
            is_nullified_on_chain = sym e i;
            block_number = none;
            transaction_hash_nullified_l1 = sym g i;
          },
        ))
      (λ d before. Before-at_least b d.is_nullified_on_chain _ before) ds all
